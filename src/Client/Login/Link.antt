-- ===== src/Client/Login/Link.antt =====
-- One request and its answer over a link.
use go_r2ps_service.Base.{
  ℕ, suc, ◌<◌, ◌≡◌, refl, String, true, All, leb, length, string_eq, eq_self,
}
use go_r2ps_service.Base.Exec.{ok, pure, require}
use go_r2ps_service.Base.Exec.Runs.{>>=-runs, require-runs, guard-runs}
use go_r2ps_service.Base.Int.{◌-ℤ◌, abs, seconds}
use go_r2ps_service.Base.Text.{utf8}
use go_r2ps_service.Base.Text.Base64.RoundTrip.{decode-encode}
use go_r2ps_service.Client.{Client, ClientState, Sending, request_of, send_2fa, exchange, send}
use go_r2ps_service.Client.Login.{World, direct, IsSent, IsAnswered}
use go_r2ps_service.Protocol.{ServiceRequest, TfaRequestData, protocol_version}
use go_r2ps_service.Service.Dispatcher.{Dispatcher, Moment, State, ResponseData, sign_response}
use go_r2ps_service.Service.Dispatcher
use go_r2ps_service.Service.Dispatcher.Process.{process, route, read_request, is_fresh}

module _ {K J C N S M : Type 0} (c : Client K J C N (World S)) (d : Dispatcher S M) where
  pub sign_response-runs :
      (t : Moment) (req : ServiceRequest) (x : ResponseData) (s : State S)
      (a : IsAnswered c d t req x)
      → sign_response d t req x s ≡ (ok a.out, s)
  unfolding sign_response Dispatcher.send require pure
  sign_response-runs t req x s a =
      require-runs s _ _ _ _ a.marshalled (require-runs s _ _ _ _ a.written (rw a.signed))

  -- The random bytes of a request make a nonce that is long enough, and its time is the server's
  -- but for the allowed skew.
  pub record IsTimely (t : Moment) (u : Sending) : Type 0 where
    pub small : All (λ x. x < 256) u.nonce
    pub long : leb 16 (length u.nonce) ≡ true
    pub near : leb (abs (t.now -ℤ seconds u.now)) d.iat_max_skew ≡ true

  module _ (moments : ℕ → Moment) (transported : c.transport ≡ direct d moments) where
    pub send_2fa-runs :
        (u : Sending) (kind id : String) (tfa : TfaRequestData) (n : ℕ) (s v : State S)
        (answer : ResponseData) (x : ClientState (World S))
        (i : IsSent c d (moments n) u kind id tfa)
        (a : IsAnswered c d (moments n) (request_of c u kind id i.data_bytes) answer)
        → IsTimely (moments n) u
        → route d (moments n) (request_of c u kind id i.data_bytes) s ≡ (ok a.out, v)
        → x.world ≡ (n, s)
        → send_2fa c u kind id tfa x ≡ (ok a.payload, record x { world = (suc n, v) })
    unfolding send_2fa exchange send process read_request is_fresh pure
    send_2fa-runs u kind id tfa n s v answer x i a timely routed at =
        let ran : process d (moments n) (utf8 i.text) s ≡ (ok a.out, v) =
          >>=-runs s _ (read_request d (moments n) (utf8 i.text)) _
            (require-runs s _ _ _ _ i.found (
              require-runs s _ _ _ _ i.verified (
                require-runs s _ _ _ _ i.read (
                  guard-runs s _ _ _ _ (eq_self protocol_version) (
                    guard-runs s _ _ _ _ (rw (decode-encode u.nonce timely.small) timely.long)
                      (guard-runs s _ _ _ _ timely.near refl))))))
            routed in
        require-runs x _ _ _ _ i.marshalled_tfa (
          require-runs x _ _ _ _ i.marshalled (
            require-runs x _ _ _ _ i.signature (
              >>=-runs x _ (send c (utf8 i.text)) _ {t = record x { world = (suc n, v) }}
                (rw (transported, at, ran))
                (require-runs _ _ _ _ _ a.verified (require-runs _ _ _ _ _ a.parsed refl)))))
