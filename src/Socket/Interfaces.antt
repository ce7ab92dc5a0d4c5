-- ===== src/Socket/Interfaces.antt =====
-- socket/getifaddrs.c: prints the addresses of the interfaces.
use apue_code.Base.{
  ℕ, ◌==◌, if◌then◌else◌, String, List, [], ◌∷◌, Exec, Call, text, must, exit, fprintf_err, pure,
  ◌>>=◌, ◌>>◌,
}
use apue_code.Socket.GetHost.{af_inet, af_inet6}

-- struct ifaddrs with an address; `ifa_next` is the rest of the list.
pub record IfAddr : Type 0 where
  pub ifa_name : String
  pub sa_family : ℕ
  pub addr : List ℕ

pub record Calls (S : Type 0) : Type 0 where
  pub getifaddrs : Call S (List IfAddr)
  pub inet_ntop : ℕ → List ℕ → Call S String

module _ {S : Type 0} (c : Calls S) where
  abbrev pub print_address : IfAddr → Exec S (Unit {0})
  print_address i = do
    addr_buf ← must "inet_ntop error" (c.inet_ntop i.sa_family i.addr)
    fprintf_err (text i.ifa_name ∷ text ": " ∷ text addr_buf ∷ text "\n" ∷ [])

  -- Both branches do the same, with the family of the address.
  abbrev pub print_interface : IfAddr → Exec S (Unit {0})
  print_interface i =
      if i.sa_family == af_inet
      then print_address i
      else if i.sa_family == af_inet6
      then print_address i
      else pure tt

  unfoldable pub print_interfaces : List IfAddr → Exec S (Unit {0})
  print_interfaces [] = exit 0
  print_interfaces (i ∷ is) = print_interface i >> print_interfaces is

  unfoldable pub main : Exec S (Unit {0})
  unfolding print_interfaces
  main = must "getifaddrs error" c.getifaddrs >>= print_interfaces
