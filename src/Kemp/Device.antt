-- ===== src/Kemp/Device.antt =====
-- An add against a device that does what its requests ask for.
use Prim.Native.String
use interlook.Prelude.{
  ℕ, String, Bool, true, not, ◌≡◌, refl, sym, ◌∙◌, ap, subst, List, [], ◌∷◌, ◌==◌, eq_iff, All,
  if◌then◌else◌, Bool-cases, inl, inr,
}
use interlook.Comm.{Message, Target, add_action, update_action}
use interlook.Calls.{ok, pure}
use interlook.Kemp.{
  Url, Request, HttpClient, KempLm, named_vs, with_vs, with_target, rs_query, authorized,
  receive_kemp, is_vs_defined, add_vs, add_rs, create_vs, create_rs, is_rs_defined, add_each,
  new_vs_request, new_auth_request,
}

abbrev pub plain : KempLm → String → Url
plain k path = record { address = String.◌++◌ k.endpoint path; query = [] }

-- The request at `path` about the virtual server of the message.
abbrev pub vs_request : KempLm → Message → String → Request
vs_request k msg path = with_vs k msg (authorized k (plain k path))

abbrev pub shown : Bool → ℕ
shown b = if b then 200 else 422

-- The client reads the addresses back, and the device shows what it has, and has what was added:
-- `has_vs` the virtual server of the message, `has_rs` a target of it.
pub record IsDevice {W : Type 0} (cli : HttpClient W) (k : KempLm) (msg : Message)
    (has_vs : W → Bool) (has_rs : W → Target → Bool) : Type 0 where
  pub parses :
      All
        (λ path. cli.parse_url (String.◌++◌ k.endpoint path) ≡ ok (plain k path))
        ("/access/showvs" ∷ "/access/addvs" ∷ "/access/showrs" ∷ "/access/addrs" ∷ [])
  pub parses_again :
      All
        (λ t.
          let u = (rs_query t (vs_request k msg "/access/addrs")).url in
          cli.parse_url (cli.print_url u) ≡ ok u)
        msg.service.targets
  pub shows_vs :
      (w : W) → cli.do_request (vs_request k msg "/access/showvs") w ≡ (w, ok (shown (has_vs w)))
  pub adds_vs :
      (w : W)
      → (w' : W) × (code : ℕ) × (cli.do_request (named_vs msg (vs_request k msg "/access/addvs")) w
          ≡ (w', ok code))
        × (has_vs w' ≡ true)
  pub shows_rs :
      (w : W) (t : Target)
      → cli.do_request (with_target t (vs_request k msg "/access/showrs")) w
        ≡ (w, ok (shown (has_rs w t)))
  pub adds_rs :
      (w : W) (t : Target)
      → has_vs w ≡ true
      → (w' : W) × (code : ℕ) × (cli.do_request (rs_query t (vs_request k msg "/access/addrs")) w
          ≡ (w', ok code))
        × (has_vs w' ≡ true)
        × (has_rs w' t ≡ true)
        × ((u : Target) → has_rs w u ≡ true → has_rs w' u ≡ true)

module _ {W : Type 0} (cli : HttpClient W) (k : KempLm) (msg : Message) (has_vs : W → Bool)
    (has_rs : W → Target → Bool) (d : IsDevice cli k msg has_vs has_rs) where
  abbrev Grows : W → W → Type 0
  Grows w w' = (u : Target) → has_rs w u ≡ true → has_rs w' u ≡ true

  is_vs_defined_lem : (w : W) → is_vs_defined cli k msg w ≡ (w, ok (has_vs w))
  unfolding is_vs_defined new_vs_request new_auth_request
  is_vs_defined_lem w = elim (Bool-cases (has_vs w)) [
    | inl p ↦ rw (d.parses.0, d.shows_vs w, p) refl
    | inr p ↦ rw (d.parses.0, d.shows_vs w, p) refl
  ]

  is_rs_defined_lem : (w : W) (t : Target) → is_rs_defined cli k msg t w ≡ (w, ok (has_rs w t))
  unfolding is_rs_defined new_vs_request new_auth_request
  is_rs_defined_lem w t = elim (Bool-cases (has_rs w t)) [
    | inl p ↦ rw (d.parses.1.1.0, d.shows_rs w t, p) refl
    | inr p ↦ rw (d.parses.1.1.0, d.shows_rs w t, p) refl
  ]

  create_vs_lem :
      (w w' : W) (code : ℕ)
      → cli.do_request (named_vs msg (vs_request k msg "/access/addvs")) w ≡ (w', ok code)
      → create_vs cli k msg w ≡ (w', ok tt)
  unfolding create_vs new_vs_request new_auth_request
  create_vs_lem w w' code e = rw (d.parses.1.0, e) refl

  abbrev again_url : Target → Url
  again_url t = (rs_query t (vs_request k msg "/access/addrs")).url

  create_rs_lem :
      (w w' : W) (code : ℕ) (t : Target)
      → cli.parse_url (cli.print_url (again_url t)) ≡ ok (again_url t)
      → cli.do_request (rs_query t (vs_request k msg "/access/addrs")) w ≡ (w', ok code)
      → create_rs cli k msg t w ≡ (w', ok tt)
  unfolding create_rs new_vs_request new_auth_request
  create_rs_lem w w' code t p e = rw (d.parses.1.1.1.0, p, e) refl

  add_vs_lem :
      (w : W)
      → (w' : W) × (add_vs cli k msg w ≡ (w', ok tt))
        × (has_vs w' ≡ true)
        × (has_vs w ≡ true → w' ≡ w)
  unfolding add_vs
  add_vs_lem w = elim (Bool-cases (has_vs w)) [
    | inl p ↦ (w, rw (is_vs_defined_lem w, p) refl, p, λ _. refl)
    | inr p ↦
        let (w', code, e, now) = d.adds_vs w in
        (w', rw (is_vs_defined_lem w, p, create_vs_lem w w' code e) refl, now, λ q. absurd (cc))
  ]

  -- One target.
  add_one :
      (w : W) (t : Target)
      → cli.parse_url (cli.print_url (again_url t)) ≡ ok (again_url t)
      → has_vs w ≡ true
      → (w' : W) × ((if not (has_rs w t) then create_rs cli k msg t else pure tt) w ≡ (w', ok tt))
        × (has_vs w' ≡ true)
        × (has_rs w' t ≡ true)
        × Grows w w'
        × (has_rs w t ≡ true → w' ≡ w)
  add_one w t p vs = elim (Bool-cases (has_rs w t)) [
    | inl has ↦ (w, rw has refl, vs, has, (λ u h. h), λ _. refl)
    | inr lacks ↦
        let (w', code, e, vs', has, grows) = d.adds_rs w t vs in
        (w', rw (lacks, create_rs_lem w w' code t p e) refl, vs', has, grows, λ q. absurd (cc))
  ]

  abbrev HasAll : W → List Target → Type 0
  HasAll w ts = All (λ t. has_rs w t ≡ true) ts

  add_each_lem :
      (ts : List Target) (w : W)
      → All (λ t. cli.parse_url (cli.print_url (again_url t)) ≡ ok (again_url t)) ts
      → has_vs w ≡ true
      → (w' : W) × (add_each cli k msg ts w ≡ (w', ok tt))
        × (has_vs w' ≡ true)
        × HasAll w' ts
        × Grows w w'
        × (HasAll w ts → w' ≡ w)
  unfolding add_each
  add_each_lem [] w ps vs = (w, refl, vs, tt, (λ u h. h), λ _. refl)
  add_each_lem (t ∷ ts) w (p, ps) vs =
      let (w₁, e, vs₁, has₁, grows₁, same₁) = add_one w t p vs in
      let (w₂, r, vs₂, has₂, grows₂, same₂) = add_each_lem ts w₁ ps vs₁ in
      (
        w₂,
        rw (is_rs_defined_lem w t, e, r) refl,
        vs₂,
        (grows₂ t has₁, has₂),
        (λ u h. grows₂ u (grows₁ u h)),
        λ (h, hs). same₂ (subst (λ v. HasAll v ts) (sym (same₁ h)) hs) ∙ same₁ h,
      )

  receive_add :
      (m : Message) (w₀ w₁ w : W)
      → m.action ≡ add_action
      → record m { action = update_action } ≡ msg
      → add_vs cli k msg w₀ ≡ (w₁, ok tt)
      → add_rs cli k msg w₁ ≡ (w, ok tt)
      → receive_kemp cli k m w₀ ≡ (w, msg ∷ [])
  unfolding receive_kemp
  receive_add m w₀ w₁ w add same e r =
      let test : (m.action == add_action) ≡ true = (eq_iff m.action add_action).1 add in
      let e' = subst (λ x. add_vs cli k x w₀ ≡ (w₁, ok tt)) (sym same) e in
      let r' = subst (λ x. add_rs cli k x w₁ ≡ (w, ok tt)) (sym same) r in
      rw (test, e', r') (ap (λ x. (w, x ∷ [])) same)

  -- With a client that reads its addresses back, and a device that shows what it has and has
  -- what was added to it, an add message is answered once, as an update and without an error
  -- of its own, leaves the virtual server and every target of the message on the device, and a
  -- second such message is answered the same and changes nothing.
  pub receive_kemp-establishes :
      (m : Message) (w : W)
      → m.action ≡ add_action
      → record m { action = update_action } ≡ msg
      → (w' : W) × (receive_kemp cli k m w ≡ (w', msg ∷ []))
        × (has_vs w' ≡ true)
        × All (λ t. has_rs w' t ≡ true) msg.service.targets
        × (receive_kemp cli k m w' ≡ (w', msg ∷ []))
  unfolding add_rs
  receive_kemp-establishes m w add same =
      let (w₁, e, vs₁, _) = add_vs_lem w in
      let (w₂, r, vs₂, all₂, _, _) = add_each_lem msg.service.targets w₁ d.parses_again vs₁ in
      let (w₃, e₃, vs₃, same₃) = add_vs_lem w₂ in
      let (w₄, r₄, _, _, _, same₄) = add_each_lem msg.service.targets w₂ d.parses_again vs₂ in
      (
        w₂,
        receive_add m w w₁ w₂ add same e r,
        vs₂,
        all₂,
        receive_add m w₂ w₂ w₂ add same (e₃ ∙ ap (λ x. (x, ok tt)) (same₃ vs₂))
            (r₄ ∙ ap (λ x. (x, ok tt)) (same₄ all₂)),
      )
