-- ===== src/Examples/Simple/Address.antt =====
-- Addresses of cpp/examples/simple.cpp and their texts.
use marko.Base.{ℕ, ◌%◌, ◌<◌, ◌≡◌, String, ◌<>◌, some, arith}
use marko.Base.Decimal.{to_decimal}
use marko.System.{System}
use marko.Examples.Simple.{htons, ntohs, get_udp_addr, get_ip_port}

-- The port in network order, turned back.
ntohs-htons : (port : ℕ) → ntohs (htons port) ≡ port % 65536
unfolding ntohs htons
ntohs-htons port = omega arith

htons-bounds : (port : ℕ) → htons port < 65536
unfolding htons
htons-bounds port = omega arith

module _ (S : System) where
  -- The text of an address that was made of a text that the system gives back, and of a port, is
  -- that text and the port; a port that does not fit in 16 bits is taken modulo 65536.
  get_ip_port-get_udp_addr :
      (ip : String) (port : ℕ)
      → S.inet_ntop S.af_inet (S.inet_addr ip) 32 ≡ some ip
      → get_ip_port S (get_udp_addr S ip port) ≡ ip <> (":" <> to_decimal (port % 65536))
  unfolding get_ip_port get_udp_addr
  get_ip_port-get_udp_addr ip port known = rw (known, ntohs-htons port)
