-- ===== src/Tests/Working.antt =====
-- A configuration that the plugin can work with.
use ats_fastcgi.Common.{refl, inl, codes, arith, decimal_before}
use ats_fastcgi.Intercept.{Works}
use ats_fastcgi.Client.Working.{decimal_address-Works}
use ats_fastcgi.Tests.Given.{given}

decimal_address-Works_example : Works given
unfolding decimal_before
decimal_address-Works_example =
    decimal_address-Works given (codes "/var/www/html/") (codes "index.php") 127 0 0 1 60000 refl
      refl refl refl (omega arith) (omega arith) (omega arith) (omega arith) (omega arith)
      (λ i. inl (λ e. cc))
