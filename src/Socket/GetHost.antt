-- ===== src/Socket/GetHost.antt =====
-- socket/gethost.c: prints the addresses of a host. The constants have their values on Linux.
pub mod Laws
use apue_code.Base.{
  ℕ, ◌+◌, ◌*◌, ◌/◌, ◌%◌, String, Bool, Option, none, some, List, [], ◌∷◌, ◌++◌, Piece, bit_and, not,
  ◌==◌, if◌then◌else◌, Exec, Call, text, num, pos, printf, fprintf_err, exit, pure, when,
  program_name, Process, ◌>>◌,
}

-- The port field as it is read from memory, and the bytes of the address.
pub record SockAddr : Type 0 where
  pub port : ℕ
  pub addr : List ℕ

-- struct addrinfo; `ai_next` is the rest of the list.
pub record AddrInfo : Type 0 where
  pub ai_flags : ℕ
  pub ai_family : ℕ
  pub ai_socktype : ℕ
  pub ai_protocol : ℕ
  pub ai_canonname : Option String
  pub ai_addr : SockAddr

pub data Found : Type 0 where
  error : ℕ → Found
  addresses : List AddrInfo → Found

abbrev pub af_inet : ℕ
af_inet = 2

abbrev pub af_inet6 : ℕ
af_inet6 = 10

abbrev pub ai_canonname_flag : ℕ
ai_canonname_flag = 2

-- ntohs on a little-endian machine exchanges the two bytes.
abbrev pub ntohs : ℕ → ℕ
ntohs port = port % 256 * 256 + port / 256 % 256

abbrev pub family_name : ℕ → String
family_name family =
    if family == af_inet
    then "inet"
    else if family == af_inet6
    then "inet6"
    else if family == 1
    then "unix"
    else if family == 0
    then "unspecified"
    else "unknown"

abbrev pub or_text : Option String → String → String
or_text none other = other
or_text (some s) other = s

module _ {S : Type 0} where
  abbrev pub put : String → Exec S (Unit {0})
  put s = printf (text s ∷ [])

  pub print_family : AddrInfo → Exec S (Unit {0})
  print_family aip = put " family: " >> put (family_name aip.ai_family)

  -- SOCK_STREAM, SOCK_DGRAM, SOCK_SEQPACKET, SOCK_RAW
  pub print_type : AddrInfo → Exec S (Unit {0})
  print_type aip =
      put " type: "
      >> (if aip.ai_socktype == 1
          then put "stream"
          else if aip.ai_socktype == 2
          then put "datagram"
          else if aip.ai_socktype == 5
          then put "seqpacket"
          else if aip.ai_socktype == 3
          then put "raw"
          else printf (text "unknown (" ∷ num (pos aip.ai_socktype) ∷ text ")" ∷ []))

  -- 0, IPPROTO_TCP, IPPROTO_UDP, IPPROTO_SCTP, IPPROTO_RAW
  pub print_protocol : AddrInfo → Exec S (Unit {0})
  print_protocol aip =
      put " protocol: "
      >> (if aip.ai_protocol == 0
          then put "default"
          else if aip.ai_protocol == 6
          then put "TCP"
          else if aip.ai_protocol == 17
          then put "UDP"
          else if aip.ai_protocol == 132
          then put "SCTP"
          else if aip.ai_protocol == 255
          then put "raw"
          else printf (text "unkonwn (" ∷ num (pos aip.ai_protocol) ∷ text ")" ∷ []))

  abbrev pub flag_text : ℕ → ℕ → String → Exec S (Unit {0})
  flag_text flags flag name = when (not (bit_and flags flag == 0)) (put name)

  -- The branch for flags that are not 0: AI_PASSIVE, AI_CANONNAME, AI_NUMERICHOST, AI_NUMERICSERV,
  -- AI_V4MAPPED and AI_ALL.
  abbrev pub flag_texts : ℕ → Exec S (Unit {0})
  flag_texts flags = do
    flag_text flags 1 " passive"
    flag_text flags 2 " canon"
    flag_text flags 4 " numhost"
    flag_text flags 0x400 " numserv"
    flag_text flags 8 " v4mapped"
    flag_text flags 0x10 " all"

  pub print_flags : AddrInfo → Exec S (Unit {0})
  print_flags aip =
      put "flags:" >> (if aip.ai_flags == 0 then put " 0" else flag_texts aip.ai_flags)

module _ {S : Type 0} (inet_ntop : ℕ → List ℕ → Option String) where
  -- The address and the port, as IPv4 or else as IPv6.
  pub print_address : AddrInfo → Exec S (Unit {0})
  print_address aip =
      if aip.ai_family == af_inet
      then (printf
            (text " address: " ∷ text (or_text (inet_ntop af_inet aip.ai_addr.addr) "unknown") ∷ [])
          >> printf (text " port: " ∷ num (pos (ntohs aip.ai_addr.port)) ∷ []))
      else (printf (
            text " address: " ∷ text (or_text (inet_ntop af_inet6 aip.ai_addr.addr) "unknown") ∷ [])
          >> printf (text " port: " ∷ num (pos aip.ai_addr.port) ∷ []))

  -- The body of the loop.
  pub print_entry : AddrInfo → Exec S (Unit {0})
  unfolding print_flags print_family print_type print_protocol print_address
  print_entry aip = do
    print_flags aip
    print_family aip
    print_type aip
    print_protocol aip
    printf (text "\n\thost: " ∷ text (or_text aip.ai_canonname "-") ∷ [])
    print_address aip
    put "\n"

  unfoldable pub print_entries : List AddrInfo → Exec S (Unit {0})
  unfolding print_entry
  print_entries [] = pure tt
  print_entries (aip ∷ aips) = print_entry aip >> print_entries aips

module _ {S : Type 0} (inet_ntop : ℕ → List ℕ → Option String) (gai_strerror : ℕ → String)
    (progname : String) (getaddrinfo : String → Option String → ℕ → S → Found × S) where
  -- errx(1, ...): `progname` is the program's name as errx prints it.
  abbrev pub errx : List Piece → Exec S (Unit {0})
  errx ps = do fprintf_err (text progname ∷ text ": " ∷ (ps ++ (text "\n" ∷ []))); exit 1

  -- What follows getaddrinfo, which gives a list or the number of an error.
  unfoldable pub found : Found → Exec S (Unit {0})
  unfolding print_entries
  found (error err) = errx (text "getaddrinfo error: " ∷ text (gai_strerror err) ∷ text "\n" ∷ [])
  found (addresses aips) = print_entries inet_ntop aips

  abbrev pub look_up : String → Option String → Exec S (Unit {0})
  look_up host service p =
      let x = getaddrinfo host service ai_canonname_flag p.kernel in
      found x.0 (record p { kernel = x.1 })

  -- `getaddrinfo` is given a host, a service and the flags of the hint.
  unfoldable pub main : List String → Exec S (Unit {0})
  main (name ∷ host ∷ []) = look_up host none
  main (name ∷ host ∷ service ∷ []) = look_up host (some service)
  main argv = errx (
      text "Usage: " ∷ text (program_name argv) ∷ text " (<address> | <hostname>) [service]\n" ∷ [])
