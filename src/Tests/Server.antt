-- ===== src/Tests/Server.antt =====
-- A server of both roles, and a registration over its store, with toy libraries.
use go_r2ps_service.Base.{◌^◌, ◌≡◌, refl, ◌⊎◌, String, none, some, [], ◌∷◌, take}
use go_r2ps_service.Base.Exec.{ok, err, ◌>>=◌, pure, require}
use go_r2ps_service.Base.Text.{utf8}
use go_r2ps_service.Protocol.{Bytes, illegal_request_data, ServiceRequest}
use go_r2ps_service.Modes.{wscd, wsca}
use go_r2ps_service.Service.Dispatcher.{Dispatcher, handler_map, sign_response, send}
use go_r2ps_service.Service.Dispatcher.New.{store_record_store}
use go_r2ps_service.Service.Dispatcher.Opaque.{reg_finalize, save_record}
use go_r2ps_service.Service.Dispatcher.Registered.{HasRegistered, reg_finalize-HasRegistered}
use go_r2ps_service.Service.Handlers.{HandlerCodec}
use go_r2ps_service.Store.Memory.{MemoryStore, memory_store, put_record}
use go_r2ps_service.Server.{handlers_of}
use go_r2ps_service.Server.Http.{write_error, r2ps_handler}
use go_r2ps_service.Server.Laws.{HasAnswered, r2ps_handler-cases}
use go_r2ps_service.Tests.Demo
use go_r2ps_service.Tests.Wallet

abbrev pub handler_codec : HandlerCodec
handler_codec = record {
  parse_keygen = λ b. none;
  marshal_created_key = λ kid. [];
  parse_ecdh = λ b. none;
  parse_list_keys = λ b. none;
  marshal_key_info = λ keys. [];
}

abbrev dispatcher : Dispatcher MemoryStore Bytes
dispatcher = record Demo.dispatcher {
  records = store_record_store memory_store Demo.opaque_library;
  handlers = handler_map [] (
      handlers_of Demo.codec.parse_sign handler_codec Demo.backend Wallet.codec Wallet.cfg
        (λ now client b s. (err "no keys", s)) (λ now client b s. (err "no keys", s))
        (wscd ∷ (wsca ∷ [])));
}

abbrev marshal_error : String → String → Bytes
marshal_error code msg = utf8 code

r2ps_handler-cases_example :
    ((msg : String) × (r2ps_handler marshal_error dispatcher Demo.moment ""
          (some (2 ∷ []))
          Demo.empty_state
        ≡ (some (write_error marshal_error 400 illegal_request_data msg), Demo.empty_state)))
    ⊎ HasAnswered Demo.codec.parse_sign handler_codec Demo.backend Wallet.codec Wallet.cfg
        (λ now client b s. (err "no keys", s))
        (λ now client b s. (err "no keys", s))
        marshal_error
        dispatcher
        Demo.moment
        ""
        (wscd ∷ (wsca ∷ []))
        (take (2 ^ 20) (2 ∷ []))
        Demo.empty_state
        (r2ps_handler marshal_error dispatcher Demo.moment "" (some (2 ∷ [])) Demo.empty_state)
r2ps_handler-cases_example =
    r2ps_handler-cases Demo.codec.parse_sign handler_codec Demo.backend Wallet.codec Wallet.cfg
      (λ now client b s. (err "no keys", s)) (λ now client b s. (err "no keys", s)) marshal_error
      dispatcher Demo.moment "" (wscd ∷ (wsca ∷ [])) (2 ∷ []) Demo.empty_state refl

abbrev registration : ServiceRequest
registration = Demo.request "2fa_registration"

answered : (reg_finalize dispatcher Demo.moment registration (8 ∷ []) Demo.empty_state).0 ≡ ok []
unfolding reg_finalize save_record sign_response send put_record ◌>>=◌ pure require
answered = refl

reg_finalize-HasRegistered_example :
    HasRegistered dispatcher Demo.moment registration
      (8 ∷ [])
      (reg_finalize dispatcher Demo.moment registration (8 ∷ []) Demo.empty_state).1
reg_finalize-HasRegistered_example =
    reg_finalize-HasRegistered dispatcher Demo.moment registration (8 ∷ []) [] Demo.empty_state refl
      (λ m read. refl) answered
