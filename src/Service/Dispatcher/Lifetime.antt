-- ===== src/Service/Dispatcher/Lifetime.antt =====
-- How long a session may last.
use go_r2ps_service.Base.{◌≡◌, false, arith, ◌*◌}
use go_r2ps_service.Base.Int.{ℤ, pos, ◌≤ℤ◌, ltb_ℤ, int64, second, pos_part}
use go_r2ps_service.Service.Dispatcher.Opaque.{granted_ttl}

-- Whatever duration a client asks for, it is never granted more than the server's time to live, and
-- a duration that is not positive, or not shorter after the wrap-around of int64, is answered with
-- just that.
pub granted_ttl-le :
    (session_ttl duration : ℤ)
    → (granted_ttl session_ttl duration ≤ℤ session_ttl)
      × (ltb_ℤ (pos 0) duration ≡ false → granted_ttl session_ttl duration ≡ session_ttl)
      × (ltb_ℤ (int64 (pos_part duration * second)) session_ttl ≡ false
          → granted_ttl session_ttl duration ≡ session_ttl)
unfolding granted_ttl
granted_ttl-le session_ttl duration = (ground arith, λ h. rw h, λ h. ground arith)
