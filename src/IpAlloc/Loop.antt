-- ===== src/IpAlloc/Loop.antt =====
-- provisioner/ipam/ipalloc/ipalloc.go: `Start` as a whole. The wait group is counted up and down for
-- each message, so it is 0 at the shutdown.
use interlook.Prelude.{
  ℕ, suc, ◌<◌, ◌≡◌, refl, sym, ap, ◌∙◌, subst, String, Bool, true, false, Option, none, some, List,
  [], ◌∷◌, ◌==◌, length, Bool-cases, Option-cases, inl, inr,
}
use interlook.Strconv.{contains}
use interlook.Comm.{Message, update_action, delete_action}
use interlook.IpAlloc.{
  IpAlloc, IpamRecord, Ip, IpNet, Search, unfinished, exhausted, free, load, save, handle,
  delete_record, delete_service, deleted, reply_deleted, reply_added, allocate, add_in, add_service,
  service_exist, parse_cidr, find_free, mask_ip,
}
use interlook.IpAlloc.Records.{AreApart}
use interlook.IpAlloc.Answers.{handle-AreApart}
use interlook.IpAlloc.Returns.{IsProper, IsProperText, handle-returns}

-- The messages one after the other: the allocator at the end, and the answers.
abbrev pub answered_first :
    Message → Option (IpAlloc × List Message) → Option (IpAlloc × List Message)
answered_first m none = none
answered_first m (some (i, out)) = some (i, m ∷ out)

abbrev pub then_on :
    Option (IpAlloc × Message)
    → (IpAlloc → Option (IpAlloc × List Message))
    → Option (IpAlloc × List Message)
then_on none rest = none
then_on (some (i, m)) rest = answered_first m (rest i)

unfoldable pub serve_ipam : ℕ → Bool → List Message → IpAlloc → Option (IpAlloc × List Message)
unfolding handle
serve_ipam f writes [] i = some (i, [])
serve_ipam f writes (msg ∷ msgs) i = then_on (handle f writes msg i) (serve_ipam f writes msgs)

-- `Start` up to the shutdown: an error in reading the file is only logged.
unfoldable pub start_ipam :
    ℕ → Bool → Bool → List Message → IpAlloc → Option (IpAlloc × List Message)
unfolding load serve_ipam
start_ipam f reads writes msgs i = serve_ipam f writes msgs (load reads i)

-- The network of the settings is never changed.
abbrev Keeps : String → Option (IpAlloc × Message) → Type 0
Keeps cidr none = Unit
Keeps cidr (some (i, m)) = i.network_cidr ≡ cidr

save-network : (writes : Bool) (i : IpAlloc) → (save writes i).network_cidr ≡ i.network_cidr
unfolding save
save-network true i = refl
save-network false i = refl

deleted-network :
    (writes : Bool) (msg : Message) (i : IpAlloc) (name : String) (o : Option (List IpamRecord))
    → (reply_deleted writes msg (deleted i name o)).0.network_cidr ≡ i.network_cidr
deleted-network writes msg i name none = refl
deleted-network writes msg i name (some records) =
    save-network writes (record i { records = records })

added-network :
    (writes : Bool) (msg : Message) (i : IpAlloc) (name : String) (s : Search)
    → Keeps i.network_cidr (reply_added msg (allocate writes name i s))
added-network writes msg i name unfinished = tt
added-network writes msg i name exhausted = refl
added-network writes msg i name (free ip) = save-network writes _

add_in-network :
    (f : ℕ) (writes : Bool) (msg : Message) (i : IpAlloc) (name : String) (o : Option (Ip × IpNet))
    → Keeps i.network_cidr (reply_added msg (add_in f writes name i o))
add_in-network f writes msg i name none = refl
add_in-network f writes msg i name (some (ip, net)) =
    added-network writes msg i name (find_free f net i.records (mask_ip net.ones ip))

handle-network :
    (f : ℕ) (writes : Bool) (msg : Message) (i : IpAlloc)
    → Keeps i.network_cidr (handle f writes msg i)
unfolding handle delete_service add_service
handle-network f writes msg i =
    let updated : Message = record msg { action = update_action } in
    elim (Bool-cases (msg.action == delete_action)) [
      | inl delete ↦ rw delete (
          deleted-network writes updated i msg.service.name
            (delete_record i.records msg.service.name))
      | inr other ↦ elim (Bool-cases (service_exist i.records msg.service.name)) [
        | inl known ↦ rw (other, known) refl
        | inr new ↦
            rw (other, new)
              (elim (Bool-cases (contains i.network_cidr ":")) [
                | inl colon ↦ rw colon tt
                | inr plain ↦
                    rw plain (
                      add_in-network f writes updated i msg.service.name
                        (parse_cidr i.network_cidr))
              ])
      ]
    ]

-- What a run from `i` over `n` messages comes to.
abbrev RunsOn : IpAlloc → ℕ → Option (IpAlloc × List Message) → Type 0
RunsOn i n o =
    (i' : IpAlloc) × (out : List Message) × (o ≡ some (i', out))
    × (length out ≡ n)
    × AreApart i'.records
    × (i'.network_cidr ≡ i.network_cidr)

serve_ipam-RunsOn :
    (f : ℕ) (writes : Bool) (msgs : List Message) (i : IpAlloc)
    → IsProper i
    → 4294967296 < f
    → AreApart i.records
    → RunsOn i (length msgs) (serve_ipam f writes msgs i)
unfolding serve_ipam
serve_ipam-RunsOn f writes [] i proper enough apart = (i, [], refl, refl, apart, refl)
serve_ipam-RunsOn f writes (msg ∷ msgs) i proper enough apart =
    elim (Option-cases (handle f writes msg i)) [
      | inl stuck ↦ absurd (handle-returns f writes msg i proper enough stuck)
      | inr ((i1, m), e) ↦
          let same : i1.network_cidr ≡ i.network_cidr =
            subst (Keeps i.network_cidr) e (handle-network f writes msg i) in
          let (i2, out, runs, n, kept, net) =
            serve_ipam-RunsOn f writes msgs i1 (subst IsProperText (sym same) proper) enough
              (handle-AreApart f writes msg i i1 m e apart) in
          (i2, m ∷ out, rw (e, runs) refl, ap suc n, kept, net ∙ same)
    ]

load-network : (reads : Bool) (i : IpAlloc) → (load reads i).network_cidr ≡ i.network_cidr
unfolding load
load-network true i = refl
load-network false i = refl

-- If the text of the configured network has no colon, as that of an IPv4 network has none, and
-- its prefix, where it is the text of a network, has at least one bit, and the records that the
-- start reads have pairwise different services and addresses, then with the fuel of 2^32 + 1
-- looks for each search the allocator answers any sequence of messages, each exactly once,
-- whether or not its file can be read or written, and at the end no two services share an
-- address and none has two records.
pub start_ipam-answers :
    (f : ℕ) (reads writes : Bool) (msgs : List Message) (i : IpAlloc)
    → IsProper i
    → 4294967296 < f
    → AreApart (load reads i).records
    → (i' : IpAlloc) × (out : List Message) × (start_ipam f reads writes msgs i ≡ some (i', out))
      × (length out ≡ length msgs)
      × AreApart i'.records
unfolding start_ipam
start_ipam-answers f reads writes msgs i proper enough apart =
    let (i', out, runs, n, kept, _) =
      serve_ipam-RunsOn f writes msgs (load reads i)
        (subst IsProperText (sym (load-network reads i)) proper) enough apart in
    (i', out, runs, n, kept)
