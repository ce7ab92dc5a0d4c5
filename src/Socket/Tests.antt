-- ===== src/Socket/Tests.antt =====
-- The theorems about socket/gethost.c at one address, and a run of getifaddrs.c.
use apue_code.Socket.Interfaces
use apue_code.Base.{
  ok, exited, suc, stderr, ℕ, ◌*◌, ◌/◌, ◌%◌, ◌≡◌, ◌↔◌, refl, String, Option, none, List, [], ◌∷◌,
  arith, done, no_error, Process, stdout, text, num, pos,
}
use apue_code.Socket.GetHost.{AddrInfo, ntohs, print_address}
use apue_code.Socket.GetHost.Laws.{print_address-port}

abbrev start : Process (Unit {0})
start = record { kernel = tt; errno = no_error; log = [] }

-- An IPv6 address with the port 80, as it is read on a little-endian machine.
abbrev six : AddrInfo
six = record {
  ai_flags = 0x402;
  ai_family = 10;
  ai_socktype = 1;
  ai_protocol = 6;
  ai_canonname = none;
  ai_addr = record { port = 80 * 256; addr = [] };
}

abbrev no_text : ℕ → List ℕ → Option String
no_text family addr = none

print_address-port_example :
    (print_address no_text six start ≡ (
      done tt,
      record start {
        log =
            stdout (text " port: " ∷ num (pos 20480) ∷ [])
            ∷ stdout (text " address: " ∷ text "unknown" ∷ [])
            ∷ [];
      },
    ))
    × (ntohs 80 ≡ 80 ↔ 80 % 256 ≡ 80 / 256)
print_address-port_example = print_address-port no_text six start 80 (omega arith) refl

-- An interface of another family is passed over.
abbrev interfaces : Interfaces.Calls ℕ
interfaces = record {
  getifaddrs = λ s. (
    ok (
        record { ifa_name = "lo"; sa_family = 2; addr = [] }
        ∷ record { ifa_name = "lo"; sa_family = 17; addr = [] }
        ∷ []),
    s,
  );
  inet_ntop = λ family addr s. (ok "127.0.0.1", suc s);
}

interfaces_run : Interfaces.main interfaces (record { kernel = 0; errno = no_error; log = [] }) ≡ (
  exited 0,
  record {
    kernel = 1;
    errno = no_error;
    log = stderr (text "lo" ∷ text ": " ∷ text "127.0.0.1" ∷ text "\n" ∷ []) ∷ [];
  },
)
unfolding Interfaces.main
interfaces_run = refl
