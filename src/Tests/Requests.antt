-- ===== src/Tests/Requests.antt =====
-- The theorems on requests, at the toy dispatcher.
use go_r2ps_service.Base.{
  ◌≡◌, ◌⊎◌, refl, true, false, none, some, [], ◌∷◌, string_eq, bytes_eq, bytes_beq, arith,
}
use go_r2ps_service.Base.Assoc.{lookup, insert, delete}
use go_r2ps_service.Base.Exec.{ok, ◌>>=◌, require, guard, gets, modify, pure, fail}
use go_r2ps_service.Base.Int.{◌-ℤ◌, abs, seconds, unix}
use go_r2ps_service.Base.Text.Base64
use go_r2ps_service.Crypto.Jws.{verify_jws}
use go_r2ps_service.Pake.Counter.{record_success}
use go_r2ps_service.Pake.Opaque
use go_r2ps_service.Pake.Session.{Session, get, mark_verified}
use go_r2ps_service.Pake.Session.Laws.{IsWellFormed}
use go_r2ps_service.Protocol.{Bytes, ServiceRequest, illegal_request_data, unsupported_request_type}
use go_r2ps_service.Service.Sad.{validate_sad}
use go_r2ps_service.Service.Dispatcher.{
  Handler, send, sign_response, find_session, count_success, mode_1fa,
}
use go_r2ps_service.Service.Dispatcher.Opaque.{auth_finalize, accept_login, verify_session}
use go_r2ps_service.Service.Dispatcher.Process.{
  process, route, handle_2fa, handle_service, run_handler, read_request, verification_key, is_fresh,
  route_opaque, require_session, authorize_service,
}
use go_r2ps_service.Service.Dispatcher.Access.{
  IsAccepted, Admits, Denied, Permits, Unpermitted, RefusedWith, process-cases,
  handle_service-cases,
}
use go_r2ps_service.Service.Dispatcher.Sessions.{HasFactor, SessionChange}
use go_r2ps_service.Service.Dispatcher.Sessions.Step.{process-SessionChange}
use go_r2ps_service.Service.Dispatcher.Sessions.Reach.{
  HasLoggedIn, process_verified, started, after_request, Reachable-IsWellFormed,
}
use go_r2ps_service.Service.Handlers.{sign_hash, validate_kid}
use go_r2ps_service.Service.Handlers.Signing.{HasSigned, handle_service-HasSigned}
use go_r2ps_service.Store.Memory.{MemoryStore}
use go_r2ps_service.Tests.Demo

-- A login is finished, and the session becomes verified.
login_run :
    lookup "s" (process Demo.dispatcher Demo.moment (1 ∷ []) (Demo.state false)).1.sessions
    ≡ some (Demo.session true)
unfolding bytes_beq process read_request ◌>>=◌ require guard gets modify pure fail verification_key
    verify_jws Base64.decode is_fresh ◌-ℤ◌ abs seconds route handle_2fa route_opaque auth_finalize
    find_session get lookup Opaque.auth_finalize accept_login count_success verify_session
    mark_verified insert delete record_success sign_response send unix
login_run = refl

unverified_before :
    (y : Session) → lookup "s" (Demo.state false).sessions ≡ some y → y.verified ≡ false
unfolding lookup
unverified_before y found = ground arith

process_verified_example :
    (req : ServiceRequest) × IsAccepted Demo.dispatcher Demo.moment (1 ∷ []) req
    × (HasLoggedIn Demo.dispatcher Demo.moment req (Demo.state false) "s"
        ⊎ (HasFactor Demo.dispatcher Demo.moment req (Demo.state false)
            × ((Demo.session true).client_id ≡ req.client_id)))
process_verified_example =
    process_verified Demo.dispatcher Demo.moment (1 ∷ []) (Demo.state false) "s" (Demo.session true)
      login_run refl unverified_before

-- A hash is signed.
signing_run :
    (handle_service Demo.dispatcher Demo.moment (Demo.request "sign_ecdsa") (Demo.state true)).0
    ≡ ok Demo.signed_response
unfolding handle_service ◌>>=◌ require guard gets modify pure fail lookup authorize_service
    require_session find_session get Base64.decode run_handler sign_hash validate_kid Base64.encode
    send unix
signing_run = refl

handler_found : lookup "sign_ecdsa" Demo.dispatcher.handlers ≡ some (Demo.handler)
unfolding lookup
handler_found = refl

handle_service-HasSigned_example :
    (x : Session) × Admits Demo.moment (Demo.request "sign_ecdsa") (Demo.state true).sessions x
    × (signature : Bytes) × (h : HasSigned Demo.codec.parse_sign Demo.backend
        (7 ∷ [])
        (Demo.state true).world
        signature)
    × ((x.task ≡ "") ⊎ (validate_sad Demo.dispatcher.sha256 x.task h.hash ≡ true))
handle_service-HasSigned_example =
    handle_service-HasSigned Demo.dispatcher Demo.moment Demo.backend (Demo.request "sign_ecdsa")
      (Demo.state true) Demo.signed_response refl handler_found signing_run

handle_service-cases_example :
    ((h : Handler MemoryStore) × (lookup "sign_ecdsa" Demo.dispatcher.handlers ≡ some h)
      × ((h.mode ≡ mode_1fa)
          ⊎ ((x : Session) × Permits Demo.dispatcher Demo.moment
                (Demo.request "sign_ecdsa")
                (Demo.state true)
                x))
      × (handle_service Demo.dispatcher Demo.moment (Demo.request "sign_ecdsa") (Demo.state true)
          ≡ run_handler Demo.dispatcher Demo.moment h
              (Demo.request "sign_ecdsa")
              (Demo.state true)))
    ⊎ (Unpermitted Demo.dispatcher Demo.moment (Demo.request "sign_ecdsa") (Demo.state true)
        × Denied Demo.dispatcher Demo.moment
            (handle_service Demo.dispatcher Demo.moment
              (Demo.request "sign_ecdsa")
              (Demo.state true))
            (Demo.state true))
    ⊎ ((lookup "sign_ecdsa" Demo.dispatcher.handlers ≡ none)
        × RefusedWith Demo.dispatcher Demo.moment unsupported_request_type
            (handle_service Demo.dispatcher Demo.moment
              (Demo.request "sign_ecdsa")
              (Demo.state true))
            (Demo.state true))
handle_service-cases_example =
    handle_service-cases Demo.dispatcher Demo.moment (Demo.request "sign_ecdsa") (Demo.state true)

process-SessionChange_example :
    ((process Demo.dispatcher Demo.moment (1 ∷ []) (Demo.state false)).1.sessions
      ≡ (Demo.state false).sessions)
    ⊎ ((req : ServiceRequest) × IsAccepted Demo.dispatcher Demo.moment (1 ∷ []) req
        × SessionChange Demo.dispatcher Demo.moment req
            (Demo.state false)
            (process Demo.dispatcher Demo.moment (1 ∷ []) (Demo.state false)).1.sessions)
process-SessionChange_example =
    process-SessionChange Demo.dispatcher Demo.moment (1 ∷ []) (Demo.state false)

process-cases_example :
    ((req : ServiceRequest) × IsAccepted Demo.dispatcher Demo.moment (9 ∷ []) req
      × (process Demo.dispatcher Demo.moment (9 ∷ []) (Demo.state false)
          ≡ route Demo.dispatcher Demo.moment req (Demo.state false)))
    ⊎ RefusedWith Demo.dispatcher Demo.moment illegal_request_data
        (process Demo.dispatcher Demo.moment (9 ∷ []) (Demo.state false))
        (Demo.state false)
process-cases_example = process-cases Demo.dispatcher Demo.moment (9 ∷ []) (Demo.state false)

Reachable-IsWellFormed_example :
    IsWellFormed (process Demo.dispatcher Demo.moment (1 ∷ []) Demo.empty_state).1.sessions
Reachable-IsWellFormed_example =
    Reachable-IsWellFormed Demo.dispatcher
      (process Demo.dispatcher Demo.moment (1 ∷ []) Demo.empty_state).1
      (after_request Demo.empty_state Demo.moment (1 ∷ []) (started Demo.empty_state refl))
