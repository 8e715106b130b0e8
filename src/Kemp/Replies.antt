-- ===== src/Kemp/Replies.antt =====
-- What the extension sends back, whatever the device answers.
use Prim.Native.String
use interlook.Loop.{is_known}
use interlook.Prelude.{
  ℕ, String, Bool, true, false, not, ◌≡◌, refl, ◌⊎◌, inl, inr, List, [], ◌∷◌, ◌==◌, eqb,
  if◌then◌else◌, ap, Bool-cases, eq_iff,
}
use interlook.Comm.{Message, Target, add_action, update_action, delete_action}
use interlook.Calls.{Result, ok, failed, ◌>>◌, pure}
use interlook.Kemp.{
  named_vs, with_vs, with_target, rs_query, authorized, Url, Request, HttpClient, KempLm,
  receive_kemp, sent_back, delete_found, is_vs_defined, delete_vs, add_vs, add_rs, create_vs,
  create_rs, is_rs_defined, add_each, new_vs_request, new_auth_request,
}

module _ {W : Type 0} where
  -- One message, which is `msg` but for its error.
  abbrev IsOne : Message → W × List Message → Type 0
  IsOne msg (w, out) = (err : String) × (out ≡ record msg { error = err } ∷ [])

  sent_back-IsOne : (msg : Message) (r : W × Result Unit) → IsOne msg (sent_back msg r)
  sent_back-IsOne msg (w, ok _) = (msg.error, refl)
  sent_back-IsOne msg (w, failed e) = (e, refl)

  delete_found-IsOne :
      (cli : HttpClient W) (k : KempLm) (msg : Message) (r : W × Result Bool)
      → IsOne msg (delete_found cli k msg r)
  delete_found-IsOne cli k msg (w, failed e) = (e, refl)
  delete_found-IsOne cli k msg (w, ok true) = sent_back-IsOne msg (delete_vs cli k msg w)
  delete_found-IsOne cli k msg (w, ok false) = (msg.error, refl)

  -- Whatever the device does, an add, an update and a delete are each answered by one message,
  -- the message itself as an update but for its error; for another action nothing is sent and
  -- the device is not asked.
  pub receive_kemp-answers :
      (cli : HttpClient W) (k : KempLm) (msg : Message) (w : W)
      → ((is_known msg.action ≡ true)
          × ((err : String) × ((receive_kemp cli k msg w).1
                ≡ record msg { action = update_action; error = err } ∷ [])))
        ⊎ ((is_known msg.action ≡ false) × (receive_kemp cli k msg w ≡ (w, [])))
  unfolding receive_kemp
  receive_kemp-answers cli k msg w =
      let updated : Message = record msg { action = update_action } in
      elim (Bool-cases (msg.action == add_action)) [
        | inl add ↦
            rw add (
              inl
                (refl, sent_back-IsOne updated ((add_vs cli k updated >> add_rs cli k updated) w)))
        | inr other ↦ elim (Bool-cases (msg.action == update_action)) [
          | inl update ↦
              let same : msg.action ≡ update_action = (eq_iff msg.action update_action).0 update in
              rw (other, update)
                (inl (refl, (msg.error, ap (λ a. record msg { action = a } ∷ []) same)))
          | inr rest ↦ elim (Bool-cases (msg.action == delete_action)) [
            | inl delete ↦
                rw (other, rest, delete)
                  (inl (refl, delete_found-IsOne cli k updated (is_vs_defined cli k updated w)))
            | inr none ↦ rw (other, rest, none) (inr (refl, refl))
          ]
        ]
      ]

module _ {W : Type 0} (cli : HttpClient W) (k : KempLm)
    (parses : (s : String) → (u : Url) × (cli.parse_url s ≡ ok u))
    (answers : (r : Request) (w : W)
      → (w' : W) × (code : ℕ) × (cli.do_request r w ≡ (w', ok code))) where
  -- A call that ends without an error.
  abbrev IsOk : {A : Type 0} → W × Result A → Type 0
  IsOk {A} r = (w : W) × (a : A) × (r ≡ (w, ok a))

  new_vs_request-IsOk :
      (path : String) (msg : Message) (w : W)
      → (req : Request) × (new_vs_request cli k path msg w ≡ (w, ok req))
  unfolding new_vs_request new_auth_request
  new_vs_request-IsOk path msg w =
      let (u, e) = parses (String.◌++◌ k.endpoint path) in
      (with_vs k msg (authorized k u), rw e refl)

  create_vs-IsOk : (msg : Message) (w : W) → IsOk (create_vs cli k msg w)
  unfolding create_vs
  create_vs-IsOk msg w =
      let (req, e) = new_vs_request-IsOk "/access/addvs" msg w in
      let (w', code, d) = answers (named_vs msg req) w in (w', tt, rw (e, d) refl)

  create_rs-IsOk : (msg : Message) (t : Target) (w : W) → IsOk (create_rs cli k msg t w)
  unfolding create_rs new_auth_request
  create_rs-IsOk msg t w =
      let (req, e) = new_vs_request-IsOk "/access/addrs" msg w in
      let (u, p) = parses (cli.print_url (rs_query t req).url) in
      let (w', code, d) = answers (authorized k u) w in (w', tt, rw (e, p, d) refl)

  is_rs_defined-IsOk : (msg : Message) (t : Target) (w : W) → IsOk (is_rs_defined cli k msg t w)
  unfolding is_rs_defined
  is_rs_defined-IsOk msg t w =
      let (req, e) = new_vs_request-IsOk "/access/showrs" msg w in
      let (w', code, d) = answers (with_target t req) w in (w', eqb code 200, rw (e, d) refl)

  create_unless-IsOk :
      (msg : Message) (t : Target) (exists : Bool) (w : W)
      → IsOk ((if not exists then create_rs cli k msg t else pure tt) w)
  create_unless-IsOk msg t true w = (w, tt, refl)
  create_unless-IsOk msg t false w = create_rs-IsOk msg t w

  add_each-IsOk : (msg : Message) (ts : List Target) (w : W) → IsOk (add_each cli k msg ts w)
  unfolding add_each
  add_each-IsOk msg [] w = (w, tt, refl)
  add_each-IsOk msg (t ∷ ts) w =
      let (w₁, exists, e) = is_rs_defined-IsOk msg t w in
      let (w₂, _, d) = create_unless-IsOk msg t exists w₁ in
      let (w₃, _, r) = add_each-IsOk msg ts w₂ in (w₃, tt, rw (e, d, r) refl)

  -- If every address can be read, every request has an answer and the first says whether the
  -- virtual server exists, an add message is answered without an error of its own whatever the
  -- status codes of all the other answers are: a device that refuses every addition is not
  -- noticed.
  pub receive_kemp-unchecked :
      (msg : Message) (w w' : W) (exist : Bool)
      → msg.action ≡ add_action
      → is_vs_defined cli k (record msg { action = update_action }) w ≡ (w', ok exist)
      → (receive_kemp cli k msg w).1 ≡ record msg { action = update_action } ∷ []
  unfolding receive_kemp add_vs add_rs
  receive_kemp-unchecked msg w w' exist add shown =
      let updated : Message = record msg { action = update_action } in
      let (w₁, _, c) = ensured exist updated w' in
      let (w₂, _, r) = add_each-IsOk updated updated.service.targets w₁ in
      rw (add, shown, c, r) refl
    where
      ensured :
          (b : Bool) (m : Message) (v : W) → IsOk ((if not b then create_vs cli k m else pure tt) v)
      ensured true m v = (v, tt, refl)
      ensured false m v = create_vs-IsOk m v
