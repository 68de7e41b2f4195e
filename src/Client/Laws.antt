-- ===== src/Client/Laws.antt =====
-- What the answers of pkg/client/client.go rest on, and what its calls change of a client.
use go_r2ps_service.Base.{◌≡◌, refl, String, Option, some, none, List, [], ◌∷◌}
use go_r2ps_service.Base.Exec.{
  Result, ok, err, Exec, ◌>>=◌, next, require-elim, gets-elim, require, pure, fail, modify,
}
use go_r2ps_service.Base.Text.{utf8}
use go_r2ps_service.Base.Text.Base64
use go_r2ps_service.Crypto.Jws.{verify_jws}
use go_r2ps_service.Crypto.Jwt.{sign_jws}
use go_r2ps_service.Protocol.{
  Bytes, ServiceRequest, ServiceResponse, TfaRequestData, TfaAuthResponseData, state_evaluate,
  state_finalize, type_2fa_authenticate,
}
use go_r2ps_service.Client.{
  Client, ClientState, Sending, Act, wrapped, wrap_error, opaque_request, request_of, sent, send,
  exchange, send_2fa, call_service, authenticate, typ_request,
}

-- As `require-elim`, with what a refusal says.
held-elim :
    {S B : Type 0} {A : Type 0} (s : S) (P : Result (List String) B × S → Type 0) (o : Option A)
    (e : List String) (f : A → Exec S (List String) B)
    → (o ≡ none → P (err e, s))
    → ((a : A) → o ≡ some a → P (f a s))
    → P ((require o e >>= f) s)
unfolding ◌>>=◌ require pure fail
held-elim s P (some a) e f p q = q a refl
held-elim s P none e f p q = p refl

module _ {K J C M W : Type 0} (c : Client K J C M W) where
  send-elim :
      {B : Type 0} (s : ClientState W) (P : Result (List String) B × ClientState W → Type 0)
      (body : Bytes) (f : Bytes → Act W B)
      → ((w : W) → P (err ("transport" ∷ []), record s { world = w }))
      → ((a : Bytes) (w : W)
          → c.transport body s.world ≡ (some a, w)
          → P (f a (record s { world = w })))
      → P ((send c body >>= f) s)
  unfolding send ◌>>=◌
  send-elim {B = B} s P body f p q = go (c.transport body s.world) q
    where
      go :
          (r : Option Bytes × W)
          → ((a : Bytes) (w : W) → r ≡ (some a, w) → P (f a (record s { world = w })))
          → P (next (sent c s r).0 f (sent c s r).1)
      go (some a, w) q = q a w refl
      go (none, w) q = p w

  -- An answer to a request: the request went out signed with the client's key, and the answer is
  -- what a response carries that verifies under the server's key.
  pub record HasExchanged (req : ServiceRequest) (v w : W) (answer : Bytes) : Type 0 where
    pub request : Bytes
    pub marshalled : c.codec.marshal_request req ≡ some request
    pub signed : String
    pub signature : sign_jws c.signer request c.client_key "" (typ_request ∷ []) ≡ some signed
    pub body : Bytes
    pub received : c.transport (utf8 signed) v ≡ (some body, w)
    pub payload : Bytes
    pub verified : verify_jws c.jose body c.server_pub ≡ some payload
    pub response : ServiceResponse
    pub parsed : c.codec.unmarshal_response payload ≡ some response
    pub answered : answer ≡ response.payload

  -- The ends of a call that asks for `Q`: an error or an answer, each with the session as before.
  pub data Ends (s : ClientState W) (Q : W → Bytes → Type 0)
      : Result (List String) Bytes × ClientState W → Type 0 where
    failed : (e : List String) (w : W) → Ends s Q (err e, record s { world = w })
    answered : (a : Bytes) (w : W) → Q w a → Ends s Q (ok a, record s { world = w })

  Ends-map :
      {s : ClientState W} {Q R : W → Bytes → Type 0}
      → ((w : W) (a : Bytes) → Q w a → R w a)
      → {r : Result (List String) Bytes × ClientState W} → Ends s Q r
      → Ends s R r
  Ends-map f (Ends.failed e w) = Ends.failed e w
  Ends-map f (Ends.answered a w q) = Ends.answered a w (f w a q)

  -- To split on a wrapped call whose ends are known.
  wrapped-elim :
      {B : Type 0} (s : ClientState W) {Q : W → Bytes → Type 0}
      (P : Result (List String) B × ClientState W → Type 0) (msg : String) (m : Act W Bytes)
      (f : Bytes → Act W B)
      → Ends s Q (m s)
      → ((e : List String) (w : W) → P (err e, record s { world = w }))
      → ((a : Bytes) (w : W) → Q w a → P (f a (record s { world = w })))
      → P ((wrapped msg m >>= f) s)
  unfolding wrapped ◌>>=◌
  wrapped-elim s {Q = Q} P msg m f ends p q = go (m s) ends
    where
      go :
          (r : Result (List String) Bytes × ClientState W)
          → Ends s Q r
          → P (next (wrap_error msg r.0) f r.1)
      go _ (Ends.failed e w) = p (msg ∷ e) w
      go _ (Ends.answered a w h) = q a w h

  exchange-Ends :
      (marshal_error verify_error : String) (req : ServiceRequest) (s : ClientState W)
      → Ends s (HasExchanged req s.world) (exchange c marshal_error verify_error req s)
  unfolding exchange pure
  exchange-Ends marshal_error verify_error req s =
      let P : Result (List String) Bytes × ClientState W → Type 0 =
        Ends s (HasExchanged req s.world) in
      require-elim s P _ _ _ (Ends.failed _ s.world) λ request marshalled.
        require-elim s P _ _ _ (Ends.failed _ s.world) λ signed signature.
          send-elim s P _ _ (λ w. Ends.failed _ w)
            λ body w received.
              let t = record s { world = w } in
              require-elim t P _ _ _ (Ends.failed _ w) λ payload verified.
                require-elim t P _ _ _ (Ends.failed _ w) λ response parsed.
                  Ends.answered response.payload w (record {
                    request = request;
                    marshalled = marshalled;
                    signed = signed;
                    signature = signature;
                    body = body;
                    received = received;
                    payload = payload;
                    verified = verified;
                    response = response;
                    parsed = parsed;
                    answered = refl;
                  })

  -- An answer to a second-factor request.
  pub record HasSent2fa (t : Sending) (kind session_id : String) (tfa : TfaRequestData) (v w : W)
      (answer : Bytes) : Type 0 where
    pub data_bytes : Bytes
    pub written : c.codec.marshal_tfa tfa ≡ some data_bytes
    pub exchanged : HasExchanged (request_of c t kind session_id data_bytes) v w answer

  send_2fa-Ends :
      (t : Sending) (kind session_id : String) (tfa : TfaRequestData) (s : ClientState W)
      → Ends s (HasSent2fa t kind session_id tfa s.world) (send_2fa c t kind session_id tfa s)
  unfolding send_2fa
  send_2fa-Ends t kind session_id tfa s =
      require-elim s (Ends s (HasSent2fa t kind session_id tfa s.world)) _ _ _
        (Ends.failed _ s.world)
        λ data_bytes written.
          Ends-map (λ w a h. record { data_bytes = data_bytes; written = written; exchanged = h })
            (exchange-Ends _ _ _ s)

  -- The ends of a service call.
  pub data Called (t : Sending) (kind : String) (data_bytes : Bytes) (s : ClientState W)
      : Result (List String) Bytes × ClientState W → Type 0 where
    unauthenticated :
        s.session_key ≡ none → Called t kind data_bytes s (err ("not authenticated" ∷ []), s)
    ended :
        (key : Bytes) (r : Result (List String) Bytes × ClientState W)
        → s.session_key ≡ some key
        → Ends s (HasExchanged (request_of c t kind s.session_id data_bytes) s.world) r
        → Called t kind data_bytes s r

  -- A service call without a session key sends nothing, changes nothing and is refused as "not
  -- authenticated". With one, it fails or answers, and keeps the session either way; an answer is
  -- what a response carries that verifies under the server's key, received for a request that was
  -- signed with the client's key and names the session, the client and its context.
  pub call_service-Called :
      (t : Sending) (kind : String) (data_bytes : Bytes) (s : ClientState W)
      → Called t kind data_bytes s (call_service c t kind data_bytes s)
  unfolding call_service
  call_service-Called t kind data_bytes s =
      let P : Result (List String) Bytes × ClientState W → Type 0 = Called t kind data_bytes s in
      gets-elim s P _ _ (
        held-elim s P _ _ _ (λ none_held. Called.unauthenticated none_held)
          λ key held. gets-elim s P _ _ (Called.ended key _ held (exchange-Ends _ _ _ s)))

  -- A login that succeeded: KE1 made from the password, an answered evaluate request with KE2, the
  -- session key that KE3 comes with, and an answered finalize request for the session named before.
  pub record HasAuthenticated (t u : Sending) (password : Bytes) (v w : W) (id : String)
      (key : Bytes) : Type 0 where
    pub client : C
    pub created : c.opaque_client.client ≡ some client
    pub ke1 : M
    pub with_secret : C
    pub started : c.opaque_client.generate_ke1 client password ≡ some (ke1, with_secret)
    pub between : W
    pub answer : Bytes
    pub evaluated :
        HasSent2fa t type_2fa_authenticate ""
          (opaque_request state_evaluate (c.opaque_client.serialize ke1))
          v
          between
          answer
    pub auth : TfaAuthResponseData
    pub parsed : c.codec.unmarshal_auth answer ≡ some auth
    pub session : id ≡ auth.tfa_session_id
    pub message : Bytes
    pub decoded : Base64.decode auth.response ≡ some message
    pub ke2 : M
    pub deserialized : c.opaque_client.deserialize_ke2 message ≡ some ke2
    pub ke3 : M
    pub finished : c.opaque_client.generate_ke3 with_secret ke2 ≡ some (ke3, key)
    pub last : Bytes
    pub finalized :
        HasSent2fa u type_2fa_authenticate id
          (opaque_request state_finalize (c.opaque_client.serialize ke3))
          between
          w
          last

  -- The ends of a login.
  pub data Login (t u : Sending) (password : Bytes) (s : ClientState W)
      : Result (List String) (Unit {0}) × ClientState W → Type 0 where
    failed : (e : List String) (w : W) → Login t u password s (err e, record s { world = w })
    authenticated :
        (id : String) (key : Bytes) (w : W)
        → HasAuthenticated t u password s.world w id key
        → Login t u password s
            (ok tt, record { session_id = id; session_key = some key; world = w })

  -- A login either fails and keeps the session that the client had, or takes over the session
  -- identifier of a verified evaluate response and the key that OPAQUE makes from the password and
  -- the KE2 of that response, after a finalize request for this session with the matching KE3 was
  -- answered under the server's key too.
  pub authenticate-Login :
      (t u : Sending) (password : Bytes) (s : ClientState W)
      → Login t u password s (authenticate c t u password s)
  unfolding authenticate modify
  authenticate-Login t u password s =
      let P : Result (List String) (Unit {0}) × ClientState W → Type 0 = Login t u password s in
      require-elim s P _ _ _ (Login.failed _ s.world) λ client created.
        require-elim s P _ _ _ (Login.failed _ s.world) λ begun started.
          wrapped-elim s P _ _ _ (send_2fa-Ends t _ _ _ s) Login.failed λ answer v evaluated.
            let s1 : ClientState W = record s { world = v } in
            require-elim s1 P _ _ _ (Login.failed _ v) λ auth parsed.
              require-elim s1 P _ _ _ (Login.failed _ v) λ _ _.
                require-elim s1 P _ _ _ (Login.failed _ v) λ message decoded.
                  require-elim s1 P _ _ _ (Login.failed _ v) λ ke2 deserialized.
                    require-elim s1 P _ _ _ (Login.failed _ v) λ done finished.
                      wrapped-elim s1 P _ _ _ (send_2fa-Ends u _ _ _ s1) Login.failed
                        λ last w finalized.
                          Login.authenticated auth.tfa_session_id done.1 w (record {
                            client = client;
                            created = created;
                            ke1 = begun.0;
                            with_secret = begun.1;
                            started = started;
                            between = v;
                            answer = answer;
                            evaluated = evaluated;
                            auth = auth;
                            parsed = parsed;
                            session = refl;
                            message = message;
                            decoded = decoded;
                            ke2 = ke2;
                            deserialized = deserialized;
                            ke3 = done.0;
                            finished = finished;
                            last = last;
                            finalized = finalized;
                          })
