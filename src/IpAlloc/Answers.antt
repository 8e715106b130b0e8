-- ===== src/IpAlloc/Answers.antt =====
-- provisioner/ipam/ipalloc/ipalloc.go: a whole message, from the channel to the answer.
use interlook.Prelude.{
  ℕ, String, ◌==◌, ◌≡◌, refl, sym, ap, ◌∙◌, ◌≢◌, inl, inr, Bool, true, false, Option, none, some,
  List, All, eq_iff, Bool-cases, subst,
}
use mathlib.Core.Option.{some-injective}
use interlook.Comm.{Message, update_action, delete_action}
use interlook.IpAlloc.{
  IpamRecord, IpAlloc, service_exist, get_service_by_name, delete_record, delete_service, deleted,
  add_service, handle, Answer, failed, answered, reply_added, reply_deleted, reply_known, with_ip,
}
use interlook.IpAlloc.Records.{
  AreApart, is_ip_free-All, service_exist-All, AreApart-snoc, delete_record-AreApart,
}
use interlook.IpAlloc.Full.{IsRefusal, HasRecord}
use interlook.IpAlloc.Handle.{Allocated, records-save, add_service-Allocated, add_service-failed}

pub handle-delete :
    (f : ℕ) (writes : Bool) (msg : Message) (i : IpAlloc)
    → msg.action ≡ delete_action
    → handle f writes msg i
      ≡ some (
          reply_deleted writes
            (record msg { action = update_action })
            (deleted i msg.service.name (delete_record i.records msg.service.name)))
unfolding handle delete_service
handle-delete f writes msg i h = rw h refl

pub handle-known :
    (f : ℕ) (writes : Bool) (msg : Message) (i : IpAlloc)
    → (msg.action == delete_action) ≡ false
    → service_exist i.records msg.service.name ≡ true
    → handle f writes msg i
      ≡ some (
        i,
        reply_known
            (record msg { action = update_action })
            (get_service_by_name i.records msg.service.name),
      )
unfolding handle
handle-known f writes msg i h k = rw (h, k) refl

pub handle-new :
    (f : ℕ) (writes : Bool) (msg : Message) (i : IpAlloc)
    → (msg.action == delete_action) ≡ false
    → service_exist i.records msg.service.name ≡ false
    → handle f writes msg i
      ≡ reply_added
          (record msg { action = update_action })
          (add_service f writes msg.service.name i)
unfolding handle
handle-new f writes msg i h k = rw (h, k) refl

-- What an add of a new service did: nothing, with the error in the answer, or an allocation whose
-- address is in the answer.
pub data Added (msg : Message) (i i' : IpAlloc) (m : Message) : Type 0 where
  refused :
      (e : String)
      → i' ≡ i
      → IsRefusal i.network_cidr (HasRecord i.records) e
      → m ≡ record msg { action = update_action; error = e }
      → Added msg i i' m
  given :
      (address : String)
      → Allocated msg.service.name i i' address
      → m ≡ with_ip (record msg { action = update_action }) address
      → Added msg i i' m

pub handle-Added :
    (f : ℕ) (writes : Bool) (msg : Message) (i i' : IpAlloc) (m : Message)
    → (msg.action == delete_action) ≡ false
    → service_exist i.records msg.service.name ≡ false
    → handle f writes msg i ≡ some (i', m)
    → Added msg i i' m
handle-Added f writes msg i i' m h k e =
    from (add_service f writes msg.service.name i) refl (sym (handle-new f writes msg i h k) ∙ e)
  where
    from :
        (r : Option (IpAlloc × Answer))
        → add_service f writes msg.service.name i ≡ r
        → reply_added (record msg { action = update_action }) r ≡ some (i', m)
        → Added msg i i' m
    from none is_none q = absurd (cc)
    from (some (j, failed x)) is_failed q =
        let same : j ≡ i' = ap (λ p. p.0) (some-injective _ _ q) in
        let (kept, why) = add_service-failed f writes msg.service.name i j x is_failed in
        refused x (sym same ∙ kept) why (sym (ap (λ p. p.1) (some-injective _ _ q)))
    from (some (j, answered address)) is_given q =
        let same : j ≡ i' = ap (λ p. p.0) (some-injective _ _ q) in
        given address
          (subst (λ t. Allocated msg.service.name i t address) same
            (add_service-Allocated f writes msg.service.name i j address is_given))
          (sym (ap (λ p. p.1) (some-injective _ _ q)))

Allocated-AreApart :
    (name address : String) (i i' : IpAlloc)
    → Allocated name i i' address
    → service_exist i.records name ≡ false
    → AreApart i.records
    → AreApart i'.records
Allocated-AreApart name address i i' a k apart = subst AreApart (sym a.recorded) (
    AreApart-snoc i.records (record { ip = address; host = name }) apart
      (service_exist-All i.records name k)
      (subst (λ t. All (λ r. r.ip ≢ t) i.records) (sym a.text)
        (is_ip_free-All i.records a.ip a.was_free)))

deleted-AreApart :
    (writes : Bool) (msg m : Message) (i i' : IpAlloc) (name : String)
    → reply_deleted writes msg (deleted i name (delete_record i.records name)) ≡ (i', m)
    → AreApart i.records
    → AreApart i'.records
deleted-AreApart writes msg m i i' name q apart = from (delete_record i.records name) refl q
  where
    from :
        (r : Option (List IpamRecord))
        → delete_record i.records name ≡ r
        → reply_deleted writes msg (deleted i name r) ≡ (i', m)
        → AreApart i'.records
    from none is_none e = subst (λ t. AreApart t.records) (ap (λ p. p.0) e) apart
    from (some rest) is_some e =
        let (kept, _) = records-save writes (record i { records = rest }) in
        subst AreApart (sym kept ∙ ap (λ p. p.0.records) e)
          (delete_record-AreApart i.records rest name is_some apart)

-- No message makes two services share an address, or one service have two records: if the
-- records of the allocator have pairwise different services and addresses, they have so after
-- any message that is answered, an add, a delete or one that fails, whether or not the file is
-- written.
pub handle-AreApart :
    (f : ℕ) (writes : Bool) (msg : Message) (i i' : IpAlloc) (m : Message)
    → handle f writes msg i ≡ some (i', m)
    → AreApart i.records
    → AreApart i'.records
handle-AreApart f writes msg i i' m e apart = elim (Bool-cases (msg.action == delete_action)) [
  | inl is_delete ↦
      deleted-AreApart writes (record msg { action = update_action }) m i i' msg.service.name
        (some-injective _ _
          (sym (handle-delete f writes msg i ((eq_iff msg.action delete_action).0 is_delete)) ∙ e))
        apart
  | inr other ↦ elim (Bool-cases (service_exist i.records msg.service.name)) [
    | inl known ↦
        subst (λ t. AreApart t.records)
          (ap (λ p. p.0) (some-injective _ _ (sym (handle-known f writes msg i other known) ∙ e)))
          apart
    | inr new ↦ elim (handle-Added f writes msg i i' m other new e) [
      | refused x same _ is ↦ subst (λ t. AreApart t.records) (sym same) apart
      | given address a is ↦ Allocated-AreApart msg.service.name address i i' a new apart
    ]
  ]
]
