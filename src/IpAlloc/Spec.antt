-- ===== src/IpAlloc/Spec.antt =====
-- The allocator as a book that gives each service at most one address, and what it promises of a
-- message: `handle` implements it, whatever the order of the records is.
use Prim.Native.String
use interlook.Prelude.{
  ℕ, String, ◌==◌, ◌≡◌, sym, ap, ◌∙◌, ◌≢◌, inl, inr, Bool, true, false, none, some, All, arith,
  eq_iff, Bool-cases, subst,
}
use mathlib.Core.Option.{some-injective}
use interlook.Comm.{Message, update_action, delete_action}
use interlook.IpAlloc.{
  IpAlloc, service_exist, get_service_by_name, deleted, handle, reply_deleted, with_ip,
}
use interlook.IpAlloc.Records.{AreApart, is_ip_free-All, delete_record-service_exist}
use interlook.IpAlloc.Book.{
  Book, book_of, Differs, HasOwner, book_of-none, book_of-known, book_of-append, book_of-fresh,
  book_of-owner, delete_record-others, delete_record-known,
}
use interlook.IpAlloc.Full.{IsRefusal, HasRecord, IsRefusal-map}
use interlook.IpAlloc.Handle.{records-save, delete_record-unknown}
use interlook.IpAlloc.Answers.{handle-delete, handle-known, handle-Added, refused, given}

-- What a message may do to the book of an allocator of the network `cidr`, and which answer it has.
pub data Serves (cidr : String) (b : Book) (msg : Message) : Book → Message → Type 0 where
  frees :
      (address : String) {b' : Book} {m : Message}
      → msg.action ≡ delete_action
      → b msg.service.name ≡ some address
      → Differs msg.service.name none b b'
      → m ≡ with_ip (record msg { action = update_action }) ""
      → Serves cidr b msg b' m
  misses :
      {b' : Book} {m : Message}
      → msg.action ≡ delete_action
      → b msg.service.name ≡ none
      → b' ≡ b
      → m ≡ record msg {
        action = update_action;
        error = String.◌++◌ "Could not find record for " msg.service.name;
      }
      → Serves cidr b msg b' m
  repeats :
      (address : String) {b' : Book} {m : Message}
      → msg.action ≢ delete_action
      → b msg.service.name ≡ some address
      → b' ≡ b
      → m ≡ with_ip (record msg { action = update_action }) address
      → Serves cidr b msg b' m
  grants :
      (address : String) {b' : Book} {m : Message}
      → msg.action ≢ delete_action
      → b msg.service.name ≡ none
      → ((n : String) → b n ≢ some address)
      → Differs msg.service.name (some address) b b'
      → m ≡ with_ip (record msg { action = update_action }) address
      → Serves cidr b msg b' m
  refuses :
      (err : String) {b' : Book} {m : Message}
      → msg.action ≢ delete_action
      → b msg.service.name ≡ none
      → b' ≡ b
      → IsRefusal cidr (HasOwner b) err
      → m ≡ record msg { action = update_action; error = err }
      → Serves cidr b msg b' m

module _ (f : ℕ) (writes : Bool) (msg : Message) (i i' : IpAlloc) (m : Message)
    (answered_by : handle f writes msg i ≡ some (i', m)) where
  abbrev Served : Type 0
  Served = Serves i.network_cidr (book_of i.records) msg (book_of i'.records) m

  serves-known :
      (msg.action == delete_action) ≡ false
      → service_exist i.records msg.service.name ≡ true
      → Served
  serves-known other known =
      let (held, same) = book_of-known i.records msg.service.name known in
      let is = some-injective _ _ (sym (handle-known f writes msg i other known) ∙ answered_by) in
      let address = (get_service_by_name i.records msg.service.name).ip in
      repeats address (λ e. absurd (ground (arith, (eq_iff msg.action delete_action).1 e))) held
        (sym (ap (λ p. book_of p.0.records) is))
        (sym (ap (λ p. p.1) is)
          ∙ ap
              (λ n. record msg {
                action = update_action;
                service = record (msg.service) { name = n; public_ip = address };
              })
              same)

  serves-new :
      AreApart i.records
      → (msg.action == delete_action) ≡ false
      → service_exist i.records msg.service.name ≡ false
      → Served
  serves-new apart other new =
      let not_delete : msg.action ≢ delete_action =
        λ e. absurd (ground (arith, (eq_iff msg.action delete_action).1 e)) in
      let before = book_of-none i.records msg.service.name new in
      elim (handle-Added f writes msg i i' m other new answered_by) [
        | refused err same why is ↦
            refuses err not_delete before (ap (λ t. book_of t.records) same)
              (IsRefusal-map i.network_cidr err (HasRecord i.records) (HasOwner (book_of i.records))
                (λ a. book_of-owner i.records a apart) why)
              is
        | given address a is ↦
            grants address not_delete before
              (λ n. book_of-fresh i.records address n (
                subst (λ t. All (λ r. r.ip ≢ t) i.records) (sym a.text)
                  (is_ip_free-All i.records a.ip a.was_free)))
              (subst (λ l. Differs msg.service.name (some address) (book_of i.records) (book_of l))
                (sym a.recorded)
                (book_of-append i.records (record { ip = address; host = msg.service.name }) new))
              is
      ]

  serves-delete : AreApart i.records → msg.action ≡ delete_action → Served
  serves-delete apart delete =
      let name = msg.service.name in
      let updated = record msg { action = update_action } in
      let answer = some-injective _ _ (sym (handle-delete f writes msg i delete) ∙ answered_by) in
      elim (Bool-cases (service_exist i.records name)) [
        | inl known ↦
            let (rest, found) = delete_record-known i.records name known in
            let is =
              ap (λ o. reply_deleted writes updated (deleted i name o)) (sym found) ∙ answer in
            let (kept, _) = records-save writes (record i { records = rest }) in
            let now : rest ≡ i'.records = sym kept ∙ ap (λ p. p.0.records) is in
            frees (get_service_by_name i.records name).ip delete
              (book_of-known i.records name known).0
              (subst (λ l. Differs name none (book_of i.records) (book_of l)) now
                (
                  book_of-none rest name
                      (delete_record-service_exist i.records rest name found apart),
                  λ n other. delete_record-others i.records rest name n found other,
                ))
              (sym (ap (λ p. p.1) is))
        | inr new ↦
            let is =
              ap (λ o. reply_deleted writes updated (deleted i name o))
                (sym (delete_record-unknown i.records name new))
              ∙ answer in
            misses delete (book_of-none i.records name new) (sym (ap (λ p. book_of p.0.records) is))
              (sym (ap (λ p. p.1) is))
      ]

  -- As a book that gives each service at most one address, the allocator keeps its promise on
  -- every message that it answers, if its records have pairwise different services and
  -- addresses: a delete frees the address of its service, or is answered with the error that
  -- there is no record of it where it has none; another message repeats the address that the
  -- service has, or grants one that no service has, or is refused without a change, with the
  -- error that no address is left, and then every address of the network up to its end is one
  -- that a service has or one that is skipped, or with the error that the text of the network
  -- is not one, and then it is none; and no other service's address changes. The order of the
  -- records, the file and the search do not show.
  pub handle-Serves :
      AreApart i.records → Serves i.network_cidr (book_of i.records) msg (book_of i'.records) m
  handle-Serves apart = elim (Bool-cases (msg.action == delete_action)) [
    | inl delete ↦ serves-delete apart ((eq_iff msg.action delete_action).0 delete)
    | inr other ↦ elim (Bool-cases (service_exist i.records msg.service.name)) [
      | inl known ↦ serves-known other known
      | inr new ↦ serves-new apart other new
    ]
  ]
