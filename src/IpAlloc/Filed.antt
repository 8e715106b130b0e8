-- ===== src/IpAlloc/Filed.antt =====
-- provisioner/ipam/ipalloc/ipalloc.go: the file has the records, if it can be written.
use interlook.Prelude.{
  ℕ, String, ◌==◌, ◌≡◌, refl, sym, ap, ◌∙◌, subst, inl, inr, true, Option, none, some, List, [],
  eq_iff, Bool-cases, Option-cases,
}
use mathlib.Core.Option.{some-injective}
use interlook.Comm.{Message, delete_action}
use interlook.IpAlloc.{
  IpamRecord, IpAlloc, Answer, failed, answered, Search, unfinished, exhausted, free, parse_cidr,
  allocate, add_service, service_exist, deleted, reply_deleted, reply_added, handle, save, load,
}
use interlook.IpAlloc.Handle.{add_service-add_in}
use interlook.IpAlloc.Answers.{handle-delete, handle-known, handle-new}

abbrev IsFiled : IpAlloc → Type 0
IsFiled i = i.file ≡ i.records

save-IsFiled : (i : IpAlloc) → IsFiled (save true i)
unfolding save
save-IsFiled i = refl

allocate-IsFiled :
    (name : String) (i i' : IpAlloc) (s : Search) (a : Answer)
    → IsFiled i
    → allocate true name i s ≡ some (i', a)
    → IsFiled i'
allocate-IsFiled name i i' unfinished a h e = absurd (cc)
allocate-IsFiled name i i' exhausted a h e = subst IsFiled (ap (λ p. p.0) (some-injective _ _ e)) h
allocate-IsFiled name i i' (free ip) a h e =
    subst IsFiled (ap (λ p. p.0) (some-injective _ _ e)) (save-IsFiled _)

add_service-IsFiled :
    (f : ℕ) (name : String) (i i' : IpAlloc) (a : Answer)
    → IsFiled i
    → add_service f true name i ≡ some (i', a)
    → IsFiled i'
add_service-IsFiled f name i i' a h e =
    let added = add_service-add_in f true name i i' a e in
    elim (Option-cases (parse_cidr i.network_cidr)) [
      | inl bad ↦ subst IsFiled (ap (λ p. p.0) (some-injective _ _ (rw bad at added))) h
      | inr ((ip, net), parsed) ↦ allocate-IsFiled name i i' _ a h (rw parsed at added)
    ]

added-IsFiled :
    (msg m : Message) (i i' : IpAlloc) (r : Option (IpAlloc × Answer))
    → ((j : IpAlloc) (a : Answer) → r ≡ some (j, a) → IsFiled j)
    → reply_added msg r ≡ some (i', m)
    → IsFiled i'
added-IsFiled msg m i i' none g e = absurd (cc)
added-IsFiled msg m i i' (some (j, failed x)) g e =
    subst IsFiled (ap (λ p. p.0) (some-injective _ _ e)) (g j (failed x) refl)
added-IsFiled msg m i i' (some (j, answered x)) g e =
    subst IsFiled (ap (λ p. p.0) (some-injective _ _ e)) (g j (answered x) refl)

deleted-IsFiled :
    (msg : Message) (i : IpAlloc) (name : String) (o : Option (List IpamRecord))
    → IsFiled i
    → IsFiled (reply_deleted true msg (deleted i name o)).0
deleted-IsFiled msg i name none h = h
deleted-IsFiled msg i name (some rest) h = save-IsFiled _

handle-IsFiled :
    (f : ℕ) (msg : Message) (i i' : IpAlloc) (m : Message)
    → IsFiled i
    → handle f true msg i ≡ some (i', m)
    → IsFiled i'
handle-IsFiled f msg i i' m h e = elim (Bool-cases (msg.action == delete_action)) [
  | inl is_delete ↦
      let is =
        some-injective _ _
          (sym (handle-delete f true msg i ((eq_iff msg.action delete_action).0 is_delete)) ∙ e) in
      subst IsFiled (ap (λ p. p.0) is) (deleted-IsFiled _ i msg.service.name _ h)
  | inr other ↦ elim (Bool-cases (service_exist i.records msg.service.name)) [
    | inl known ↦
        subst IsFiled
          (ap (λ p. p.0) (some-injective _ _ (sym (handle-known f true msg i other known) ∙ e))) h
    | inr new ↦
        added-IsFiled _ m i i' (add_service f true msg.service.name i)
          (λ j a is. add_service-IsFiled f msg.service.name i j a h is)
          (sym (handle-new f true msg i other new) ∙ e)
  ]
]

-- If the file has the records and can be written, then after any message that is answered the
-- file has the records again, and a new start that reads the file has the allocator as it was.
pub load-handle :
    (f : ℕ) (msg : Message) (i i' : IpAlloc) (m : Message)
    → i.file ≡ i.records
    → handle f true msg i ≡ some (i', m)
    → (i'.file ≡ i'.records) × (load true (record i' { records = [] }) ≡ i')
unfolding load
load-handle f msg i i' m h e =
    let filed = handle-IsFiled f msg i i' m h e in
    (filed, ap (λ l. record i' { records = l }) filed)
