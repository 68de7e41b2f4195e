-- ===== src/Server/Http.antt =====
-- cmd/server/main.go: the HTTP face of the dispatcher. The encoding of an error is a parameter;
-- `none` for a response is a connection that is closed without one.
use go_r2ps_service.Base.{
  ℕ, ◌^◌, String, Bool, Option, none, some, List, [], ◌∷◌, any, take, is_some, ◌||◌, if◌then◌else◌,
}
use go_r2ps_service.Base.Exec.{Result, ok, err}
use go_r2ps_service.Base.Text.{codes, utf8}
use go_r2ps_service.Base.Text.Split.{strip_prefix}
use go_r2ps_service.Protocol.{
  Bytes, ErrorCode, illegal_request_data, unauthorized, access_denied, illegal_state,
  unsupported_request_type, server_error, try_later, code_text,
}
use go_r2ps_service.Service.Dispatcher.{Dispatcher, Moment, State, Stop, refused, crashed}
use go_r2ps_service.Service.Dispatcher.Process.{process}
use go_r2ps_service.Service.Handlers.{Backend}

pub record HttpResponse : Type 0 where
  pub status : ℕ
  pub content_type : String
  pub body : Bytes

-- `mapErrorStatus`.
abbrev pub map_error_status : ErrorCode → ℕ
map_error_status unauthorized = 401
map_error_status access_denied = 403
map_error_status unsupported_request_type = 415
map_error_status illegal_request_data = 400
map_error_status illegal_state = 409
map_error_status try_later = 503
map_error_status server_error = 500

-- `strings.Contains`.
abbrev pub contains : List ℕ → List ℕ → Bool
contains part [] = is_some (strip_prefix part [])
contains part (c ∷ cs) = let rest = contains part cs in is_some (strip_prefix part (c ∷ cs)) || rest

-- `isInfrastructurePanic`.
abbrev pub is_infrastructure_panic : String → Bool
is_infrastructure_panic stack =
    any (λ m. contains (codes m) (codes stack))
      ("internal/hsm." ∷ ("internal/pake." ∷ ("sync.(*Pool)" ∷ ("runtime.fatal" ∷ []))))

module _ (marshal_error : String → String → Bytes) where
  -- `writeError`.
  abbrev pub write_error : ℕ → ErrorCode → String → HttpResponse
  write_error status code msg = record {
    status = status;
    content_type = "application/json";
    body = marshal_error (code_text code) msg;
  }

  -- `recoverMiddleware`, for a panic with this stack. What it panics with again ends the
  -- connection in net/http.
  abbrev pub recovered : String → Option HttpResponse
  recovered stack =
      if is_infrastructure_panic stack
      then none
      else some (record {
        status = 500;
        content_type = "text/plain; charset=utf-8";
        body = utf8 "{\"error_code\":\"server_error\",\"error_message\":\"internal error\"}\n";
      })

  -- What is written for an end of `Process`.
  abbrev pub written : String → Result Stop Bytes → Option HttpResponse
  written stack (ok bytes) =
      some (record { status = 200; content_type = "application/jose"; body = bytes })
  written stack (err (refused e)) = some (write_error (map_error_status e.code) e.code e.msg)
  written stack (err crashed) = recovered stack

  module _ {S M : Type 0} (d : Dispatcher S M) (t : Moment) (stack : String) where
    abbrev pub respond : Result Stop Bytes × State S → Option HttpResponse × State S
    respond r = (written stack r.0, r.1)

    -- `r2psHandler` behind `recoverMiddleware`. `none` is a body that cannot be read; of a longer
    -- one than the limit the rest is not read.
    unfoldable pub r2ps_handler : Option Bytes → State S → Option HttpResponse × State S
    r2ps_handler none s = (some (write_error 400 illegal_request_data "read body failed"), s)
    r2ps_handler (some bytes) s = respond (process d t (take (2 ^ 20) bytes) s)

-- `handleHealthz`.
abbrev pub healthz : HttpResponse
healthz = record {
  status = 200;
  content_type = "application/json";
  body = utf8 "{\"status\":\"ok\"}";
}

abbrev pub ready_reply : {A : Type 0} → Result String A → HttpResponse
ready_reply (ok keys) = record {
  status = 200;
  content_type = "application/json";
  body = utf8 "{\"status\":\"ready\"}";
}
ready_reply (err e) = record {
  status = 503;
  content_type = "application/json";
  body = utf8 "{\"status\":\"not ready\",\"reason\":\"hsm\"}";
}

-- What stands under "GET /readyz": `readyzHandler` where there is an HSM.
abbrev pub readyz : {S : Type 0} → Option (Backend S) → S → HttpResponse
readyz none s = healthz
readyz (some backend) s = ready_reply (backend.list_keys [] s)
