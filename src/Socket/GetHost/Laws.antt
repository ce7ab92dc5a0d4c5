-- ===== src/Socket/GetHost/Laws.antt =====
-- gethost.c: the flags that are listed, and the ports that are printed.
use apue_code.Base.{
  ℕ, ◌/◌, ◌%◌, ◌<◌, ◌≡◌, ◌↔◌, refl, String, Bool, true, false, not, Option, List, [], ◌∷◌, arith,
  bit_and, ◌==◌, if◌then◌else◌, done, Exec, Process, Line, stdout, text, num, pos, when, pure,
  printf, ◌>>=◌,
}
use apue_code.Socket.GetHost.{
  AddrInfo, af_inet, af_inet6, put, ntohs, print_flags, print_address, flag_text, flag_texts,
  or_text,
}

-- The flags that have a name, in the order of printing.
abbrev pub flag_table : List (ℕ × String)
flag_table =
    (1, " passive")
    ∷ (2, " canon")
    ∷ (4, " numhost")
    ∷ (0x400, " numserv")
    ∷ (8, " v4mapped")
    ∷ (0x10, " all")
    ∷ []

-- One line for each flag of the table that is set.
abbrev pub named : List (ℕ × String) → ℕ → List Line → List Line
named [] flags log = log
named ((flag, name) ∷ table) flags log =
    named table flags (if not (bit_and flags flag == 0) then stdout (text name ∷ []) ∷ log else log)

-- The text for the address, by inet_ntop for the family or else "unknown".
abbrev pub address_text : (ℕ → List ℕ → Option String) → AddrInfo → String
address_text inet_ntop aip =
    or_text (inet_ntop (if aip.ai_family == af_inet then af_inet else af_inet6) aip.ai_addr.addr)
      "unknown"

module _ {S : Type 0} where
  flag_text-named :
      (flags flag : ℕ) (name : String) (f : Unit {0} → Exec S (Unit {0})) (p : Process S)
      → (flag_text flags flag name >>= f) p
        ≡ f tt (record p { log = named ((flag, name) ∷ []) flags p.log })
  flag_text-named flags flag name f p = go (not (bit_and flags flag == 0))
    where
      go :
          (b : Bool)
          → (when b (printf (text name ∷ [])) >>= f) p
            ≡ f tt (record p { log = if b then stdout (text name ∷ []) ∷ p.log else p.log })
      go true = refl
      go false = refl

  either :
      (b : Bool) (m n : Exec S (Unit {0})) (p : Process S) (l l' : List Line)
      → m p ≡ (done tt, record p { log = l })
      → n p ≡ (done tt, record p { log = l' })
      → (if b then m else n) p ≡ (done tt, record p { log = if b then l else l' })
  either true m n p l l' left right = left
  either false m n p l l' left right = right

  flag_text-end :
      (flags flag : ℕ) (name : String) (p : Process S)
      → flag_text flags flag name p
        ≡ (done tt, record p { log = named ((flag, name) ∷ []) flags p.log })
  flag_text-end flags flag name p =
      either (not (bit_and flags flag == 0)) (put name) (pure tt) p _ p.log refl refl

  flag_texts-named :
      (flags : ℕ) (p : Process S)
      → flag_texts flags p ≡ (done tt, record p { log = named flag_table flags p.log })
  flag_texts-named flags p = rw (
    flag_text-named, flag_text-named, flag_text-named, flag_text-named, flag_text-named,
    flag_text-end,
  )

  -- print_flags prints "flags:" and then " 0" if no flag is set at all, or else the names of the set
  -- flags that have one, in the order of the table; so nothing if only other flags are set.
  print_flags-named :
      (aip : AddrInfo) (p : Process S)
      → print_flags aip p ≡ (
        done tt,
        record p {
          log =
              if aip.ai_flags == 0
              then stdout (text " 0" ∷ []) ∷ stdout (text "flags:" ∷ []) ∷ p.log
              else named flag_table aip.ai_flags (stdout (text "flags:" ∷ []) ∷ p.log);
        },
      )
  unfolding print_flags
  print_flags-named aip p =
      either (aip.ai_flags == 0) _ (flag_texts aip.ai_flags) _ _ _ refl
        (flag_texts-named aip.ai_flags _)

-- A port number that the resolver stored in network order comes back from ntohs.
ntohs-ntohs : (n : ℕ) → n < 65536 → ntohs (ntohs n) ≡ n
ntohs-ntohs n h = omega arith

module _ {S : Type 0} (inet_ntop : ℕ → List ℕ → Option String) where
  -- With a port n stored in network order, print_address prints n for an IPv4 address. For any other
  -- family it prints n with its bytes exchanged, which is n only if the two bytes are equal.
  pub print_address-port :
      (aip : AddrInfo) (p : Process S) (n : ℕ)
      → n < 65536
      → aip.ai_addr.port ≡ ntohs n
      → (print_address inet_ntop aip p ≡ (
        done tt,
        record p {
          log =
              stdout
                (text " port: " ∷ num (pos (if aip.ai_family == af_inet then n else ntohs n)) ∷ [])
              ∷ stdout (text " address: " ∷ text (address_text inet_ntop aip) ∷ [])
              ∷ p.log;
        },
      ))
        × (ntohs n ≡ n ↔ n % 256 ≡ n / 256)
  unfolding print_address
  print_address-port aip p n h e =
      (rw (e, ntohs-ntohs n h) (ground arith), ((λ e'. omega arith), (λ e'. omega arith)))
