-- ===== src/Client/Login/Registers.antt =====
-- An honest registration stores the record that the client has made.
use go_r2ps_service.Base.{ℕ, suc, ◌<◌, ◌≡◌, refl, some, All, string_eq}
use go_r2ps_service.Base.Exec.{ok, pure}
use go_r2ps_service.Base.Exec.Runs.{>>=-runs, require-runs}
use go_r2ps_service.Base.Text.{utf8}
use go_r2ps_service.Base.Text.Base64
use go_r2ps_service.Base.Text.Base64.RoundTrip.{decode-encode}
use go_r2ps_service.Client.{Client, ClientState, Sending, request_of, opaque_request, register}
use go_r2ps_service.Client.Login.{World, direct, IsSent, IsAnswered}
use go_r2ps_service.Client.Login.Link.{IsTimely, sign_response-runs, send_2fa-runs}
use go_r2ps_service.Client.Login.Phases.{message_read}
use go_r2ps_service.Client.Login.Completes.{wrapped-runs}
use go_r2ps_service.Pake.Opaque
use go_r2ps_service.Protocol.{
  Bytes, ServiceRequest, state_evaluate, state_finalize, type_2fa_registration,
}
use go_r2ps_service.Service.Dispatcher.{
  Dispatcher, Moment, State, ResponseData, tfa, credential_id_of,
}
use go_r2ps_service.Service.Dispatcher.New.{store_record_store}
use go_r2ps_service.Service.Dispatcher.Opaque.{reg_evaluate, reg_finalize}
use go_r2ps_service.Service.Dispatcher.Process.{route, handle_2fa, route_opaque, handle_opaque}
use go_r2ps_service.Service.Dispatcher.Registered.{stored_in, save_record-eq, found_again}
use go_r2ps_service.Store.Memory.{MemoryStore, memory_store, joined}

module _ {K J C N M : Type 0} (c : Client K J C N (World MemoryStore))
    (d : Dispatcher MemoryStore M) where
  abbrev pub registration_request : Sending → Bytes → ServiceRequest
  registration_request u b = request_of c u type_2fa_registration "" b

  abbrev pub registration_answer : Bytes → ResponseData
  registration_answer resp =
      tfa (record { p_data = Base64.encode resp; response = Base64.encode resp; message = "" })

  abbrev pub success : ResponseData
  success = tfa (record { p_data = ""; response = ""; message = "success" })

  -- The record of this client, as the dispatcher makes it of a message.
  abbrev pub record_of : M → Opaque.ClientRecord M
  record_of m = record {
    registration_record = m;
    credential_identifier = utf8 (joined c.context c.client_id);
  }

  reg_evaluate-runs :
      (t : Moment) (u : Sending) (b message resp : Bytes) (s : State MemoryStore)
      → d.codec.parse_tfa b ≡ some (opaque_request state_evaluate message)
      → All (λ x. x < 256) message
      → Opaque.registration_response d.opaque_server message
          (credential_id_of (registration_request u b))
        ≡ some resp
      → (a : IsAnswered c d t (registration_request u b) (registration_answer resp))
      → route d t (registration_request u b) s ≡ (ok a.out, s)
  unfolding route handle_2fa route_opaque reg_evaluate
  reg_evaluate-runs t u b message resp s read small responded a =
      let req = registration_request u b in
      let answered : reg_evaluate d t req message s ≡ (ok a.out, s) =
        require-runs s _ _ _ _ responded
          (sign_response-runs c d t req (registration_answer resp) s a) in
      let routed : handle_opaque d t req (opaque_request state_evaluate message) s ≡ (ok a.out, s) =
        require-runs s _ _ _ _ (message_read state_evaluate message small) answered in
      require-runs s _ _ _ _ read routed

  reg_finalize-runs :
      (t : Moment) (u : Sending) (b message : Bytes) (m : M) (s : State MemoryStore)
      → d.records ≡ store_record_store memory_store d.opaque_server
      → d.codec.parse_tfa b ≡ some (opaque_request state_finalize message)
      → All (λ x. x < 256) message
      → d.opaque_server.deserialize_record message ≡ some m
      → (a : IsAnswered c d t (registration_request u b) success)
      → route d t (registration_request u b) s
        ≡ (ok a.out, stored_in d t (registration_request u b) (record_of m) s)
  unfolding route handle_2fa route_opaque reg_finalize
  reg_finalize-runs t u b message m s records read small made a =
      let req = registration_request u b in
      let v = stored_in d t req (record_of m) s in
      let answered : reg_finalize d t req message s ≡ (ok a.out, v) = require-runs s _ _ _ _ made (
        >>=-runs s _ _ _ (save_record-eq d t req (record_of m) s records)
          (sign_response-runs c d t req success v a)) in
      let routed : handle_opaque d t req (opaque_request state_finalize message) s ≡ (ok a.out, v) =
        require-runs s _ _ _ _ (message_read state_finalize message small) answered in
      require-runs s _ _ _ _ read routed

  -- The OPAQUE libraries of the two sides go through a registration with the password, to a record
  -- that the client finds and that the dispatcher reads.
  pub record CanRegister (moments : ℕ → Moment) (t u : Sending) (password : Bytes) (n : ℕ)
      : Type 0 where
    pub start : C
    pub created : c.opaque_client.client ≡ some start
    pub request : N
    pub middle : C
    pub started : c.opaque_client.registration_init start password ≡ some (request, middle)
    pub small_1 : All (λ x. x < 256) (c.opaque_client.serialize request)
    pub timely_1 : IsTimely c d (moments n) t
    pub sent_1 :
        IsSent c d
          (moments n)
          t
          type_2fa_registration
          ""
          (opaque_request state_evaluate (c.opaque_client.serialize request))
    pub resp : Bytes
    pub responded :
        Opaque.registration_response d.opaque_server
          (c.opaque_client.serialize request)
          (utf8 (joined c.context c.client_id))
        ≡ some resp
    pub small_2 : All (λ x. x < 256) resp
    pub answered_1 :
        IsAnswered c d
          (moments n)
          (registration_request t sent_1.data_bytes)
          (registration_answer resp)
    pub readable : c.opaque_client.has_deserializer ≡ some tt
    pub response : N
    pub deserialized : c.opaque_client.deserialize_registration_response resp ≡ some response
    pub made : N
    pub finished : c.opaque_client.registration_finalize middle response ≡ some made
    pub small_3 : All (λ x. x < 256) (c.opaque_client.serialize made)
    pub timely_2 : IsTimely c d (moments (suc n)) u
    pub sent_2 :
        IsSent c d
          (moments (suc n))
          u
          type_2fa_registration
          ""
          (opaque_request state_finalize (c.opaque_client.serialize made))
    pub message : M
    pub read : d.opaque_server.deserialize_record (c.opaque_client.serialize made) ≡ some message
    pub answered_2 :
        IsAnswered c d (moments (suc n)) (registration_request u sent_2.data_bytes) success

  -- A registration over a transport that loses nothing, at a dispatcher with its records in the
  -- in-memory store, succeeds, if the OPAQUE library reads back this record: the dispatcher then has
  -- the record that the client made, under the identifier of the client, and its sessions and its
  -- counter are as they were.
  pub register-completes :
      (moments : ℕ → Moment) (t u : Sending) (password : Bytes) (n : ℕ)
      (x : ClientState (World MemoryStore)) (s : State MemoryStore)
      → c.transport ≡ direct d moments
      → d.records ≡ store_record_store memory_store d.opaque_server
      → (can : CanRegister moments t u password n)
      → d.opaque_server.deserialize_record (d.opaque_server.serialize can.message)
        ≡ some can.message
      → x.world ≡ (n, s)
      → (v : State MemoryStore) × (register c t u password x
          ≡ (ok tt, record x { world = (suc (suc n), v) }))
        × (d.records.get_record c.client_id c.context v.world ≡ some (record_of can.message))
        × (v.sessions ≡ s.sessions)
        × (v.counter ≡ s.counter)
  unfolding register pure
  register-completes moments t u password n x s transported records can reads at =
      let m1 = c.opaque_client.serialize can.request in
      let m3 = c.opaque_client.serialize can.made in
      let req = registration_request u can.sent_2.data_bytes in
      let v = stored_in d (moments (suc n)) req (record_of can.message) s in
      let x1 : ClientState (World MemoryStore) = record x { world = (suc n, s) } in
      let first =
        send_2fa-runs c d moments transported t type_2fa_registration ""
          (opaque_request state_evaluate m1) n s s _ x can.sent_1 can.answered_1 can.timely_1
          (reg_evaluate-runs (moments n) t can.sent_1.data_bytes m1 can.resp s can.sent_1.read_tfa
            can.small_1 can.responded can.answered_1)
          at in
      let second =
        send_2fa-runs c d moments transported u type_2fa_registration ""
          (opaque_request state_finalize m3) (suc n) s v _ x1 can.sent_2 can.answered_2 can.timely_2
          (reg_finalize-runs (moments (suc n)) u can.sent_2.data_bytes m3 can.message s records
            can.sent_2.read_tfa can.small_3 can.read can.answered_2)
          refl in
      (
        v,
        require-runs x _ _ _ _ can.created (
            require-runs x _ _ _ _ can.started (
              wrapped-runs x _ _ _ _ first (
                require-runs x1 _ _ _ _ can.answered_1.read (
                  require-runs x1 _ _ _ _ can.readable (
                    require-runs x1 _ _ _ _ (decode-encode can.resp can.small_2) (
                      require-runs x1 _ _ _ _ can.deserialized (
                        require-runs x1 _ _ _ _ can.finished (>>=-runs x1 _ _ _ second refl)))))))),
        found_again d (moments (suc n)) req can.message s records reads,
        refl,
        refl,
      )
