-- ===== src/IpAlloc/RoundTrip.antt =====
-- provisioner/ipam/ipalloc/ipalloc.go: an add, followed by another add or by a delete.
use mathlib.Core.Option
use interlook.Prelude.{ℕ, ◌==◌, ◌≡◌, refl, ap, ◌∙◌, Bool, true, false, some, subst}
use interlook.Comm.{Message, update_action, delete_action}
use interlook.IpAlloc.{IpamRecord, IpAlloc, service_exist, get_service_by_name, handle, reply_known}
use interlook.IpAlloc.Handle.{
  records-save, get_service_by_name-own, delete_record-own, delete_record-unknown,
}
use interlook.IpAlloc.Answers.{handle-delete, handle-known, handle-Added, refused, given}

-- Where an add of an unknown service left a record of it, the next message on the service that
-- is not a delete changes nothing, and is answered with the address that the first was.
pub handle-again :
    (f g : ℕ) (writes writes' : Bool) (msg again : Message) (i i' : IpAlloc) (m : Message)
    → (msg.action == delete_action) ≡ false
    → (again.action == delete_action) ≡ false
    → again.service.name ≡ msg.service.name
    → service_exist i.records msg.service.name ≡ false
    → handle f writes msg i ≡ some (i', m)
    → service_exist i'.records msg.service.name ≡ true
    → handle g writes' again i'
      ≡ some (
        i',
        record again {
          action = update_action;
          service = record (again.service) { public_ip = m.service.public_ip };
        },
      )
handle-again f g writes writes' msg again i i' m a b same new e known =
    elim (handle-Added f writes msg i i' m a new e) [
      | refused x is _ _ ↦
          let bad = subst (λ t. service_exist t.records msg.service.name ≡ true) is known in
          absurd (cc)
      | given address al is ↦
          let own : IpamRecord = record { ip = address; host = msg.service.name } in
          let found : get_service_by_name i'.records again.service.name ≡ own =
            rw (same, al.recorded) (get_service_by_name-own i.records own new) in
          let sent : m.service.public_ip ≡ address = ap (λ t. t.service.public_ip) is in
          handle-known g writes' again i' b (rw same known)
          ∙ ap (λ r. some (i', reply_known (record again { action = update_action }) r)) found
          ∙ rw (sent, same) refl
    ]

-- An answered add of an unknown service and then the delete of that service give back the
-- records in their order, whether the add found an address or not and whether or not the file is
-- written.
pub handle-restores :
    (f g : ℕ) (writes writes' : Bool) (msg del : Message) (i i' : IpAlloc) (m : Message)
    → (msg.action == delete_action) ≡ false
    → del.action ≡ delete_action
    → del.service.name ≡ msg.service.name
    → service_exist i.records msg.service.name ≡ false
    → handle f writes msg i ≡ some (i', m)
    → Option.map (λ p. p.0.records) (handle g writes' del i') ≡ some i.records
handle-restores f g writes writes' msg del i i' m a d same new e =
    rw (handle-delete g writes' del i' d, same)
      (elim (handle-Added f writes msg i i' m a new e) [
        | refused x is _ _ ↦ rw (is, delete_record-unknown i.records msg.service.name new) refl
        | given address al is ↦
            rw
              (
                al.recorded,
                delete_record-own i.records (record { ip = address; host = msg.service.name }) new,
              )
              (ap some (records-save writes' (record i' { records = i.records })).0)
      ])
