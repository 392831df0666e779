-- ===== src/Tests/Addresses.antt =====
-- Addresses of the application.
use ats_fastcgi.Common.{◌≡◌, [], ◌∷◌, some, ok, codes, arith, decimal_before}
use ats_fastcgi.Connection.Address.{address_of, address_of-decimal}

address_of-decimal_example :
    address_of (some (codes "192.168.0.7")) (some (codes "9000"))
    ≡ ok (record { sin_addr = 192 ∷ 168 ∷ 0 ∷ 7 ∷ []; sin_port = 35 ∷ 40 ∷ [] })
unfolding decimal_before
address_of-decimal_example =
    address_of-decimal 192 168 0 7 9000 (omega arith) (omega arith) (omega arith) (omega arith)
      (omega arith)
