-- ===== src/IpAlloc.antt =====
-- provisioner/ipam/ipalloc/ipalloc.go: the allocator of addresses. An address is the list of its four
-- bytes. Of a network whose text has a colon, as that of an IPv6 network has, no search is modelled.
-- The file of the records is the list that was last written to it; a write that fails is logged, and
-- changes nothing else.
pub mod Records
pub mod Full
pub mod Handle
pub mod Answers
pub mod RoundTrip
pub mod Termination
pub mod Returns
pub mod Book
pub mod Spec
pub mod Filed
pub mod Loop
use Prim.Native.String
use interlook.Prelude.{
  ℕ, zero, suc, ◌+◌, ◌-◌, ◌*◌, ◌/◌, ◌%◌, ◌^◌, min, String, Bool, true, false, not, ◌&&◌, ◌||◌,
  Option, none, some, List, [], ◌∷◌, ◌++◌, ◌==◌, eqb, leb, if◌then◌else◌, split,
}
use mathlib.Core.Option
use interlook.Strconv.{itoa, all_digits, contains}
use interlook.Comm.{Message, Service, update_action, delete_action}

abbrev pub Ip : Type 0
Ip = List ℕ

pub record IpamRecord : Type 0 where
  pub ip : String
  pub host : String

-- `net.IPNet` of an IPv4 network: its address and the length of its prefix.
pub record IpNet : Type 0 where
  pub address : Ip
  pub ones : ℕ

pub record IpAlloc : Type 0 where
  pub network_cidr : String
  pub records : List IpamRecord
  pub file : List IpamRecord

-- The first `k` bits of a byte, the others cleared.
abbrev pub mask_byte : ℕ → ℕ → ℕ
mask_byte k b = let low = 2 ^ (8 - min k 8) in b / low * low

-- `ip.Mask(mask)` for a prefix of `ones` bits
unfoldable pub mask_ip : ℕ → Ip → Ip
mask_ip ones [] = []
mask_ip ones (b ∷ bs) = mask_byte ones b ∷ mask_ip (ones - 8) bs

abbrev pub octet : Option ℕ → Option ℕ
octet none = none
octet (some n) = if leb n 255 then some n else none

abbrev pub quad : Option ℕ → Option ℕ → Option ℕ → Option ℕ → Option Ip
quad (some a) (some b) (some c) (some d) = some (a ∷ b ∷ c ∷ d ∷ [])
quad _ _ _ _ = none

unfoldable pub four_octets : List String → Option Ip
four_octets (a ∷ b ∷ c ∷ d ∷ []) =
    quad (octet (all_digits a)) (octet (all_digits b)) (octet (all_digits c)) (octet (all_digits d))
four_octets _ = none

abbrev pub prefix_length : Option ℕ → Option ℕ
prefix_length none = none
prefix_length (some n) = if leb n 32 then some n else none

abbrev pub net_of : Option Ip → Option ℕ → Option (Ip × IpNet)
net_of (some ip) (some ones) = some (ip, record { address = mask_ip ones ip; ones = ones })
net_of _ _ = none

abbrev pub cidr_of : List String → Option (Ip × IpNet)
cidr_of (addr ∷ mask ∷ []) =
    net_of (four_octets (split b'.' addr)) (prefix_length (all_digits mask))
cidr_of _ = none

-- `net.ParseCIDR` of a text without a colon: the address and its network
unfoldable pub parse_cidr : String → Option (Ip × IpNet)
unfolding four_octets mask_ip
parse_cidr s = cidr_of (split b'/' s)

unfoldable pub eq_ip : Ip → Ip → Bool
eq_ip [] [] = true
eq_ip (a ∷ as₁) (b ∷ bs) = eqb a b && eq_ip as₁ bs
eq_ip _ _ = false

-- `ipnet.Contains(ip)`
unfoldable pub net_contains : IpNet → Ip → Bool
unfolding eq_ip mask_ip
net_contains net ip = eq_ip (mask_ip net.ones net.address) (mask_ip net.ones ip)

-- `ip.String()`
unfoldable pub ip_string : Ip → String
unfolding itoa
ip_string [] = String.[]
ip_string (b ∷ []) = itoa b
ip_string (b ∷ c ∷ bs) = String.◌++◌ (itoa b) (String.◌∷◌ "." (ip_string (c ∷ bs)))

-- `ipnet.String()`
unfoldable pub net_string : IpNet → String
unfolding ip_string
net_string net = String.◌++◌ (ip_string net.address) (String.◌∷◌ "/" (itoa net.ones))

-- `ip.IsMulticast()`
unfoldable pub is_multicast : Ip → Bool
is_multicast [] = false
is_multicast (b ∷ _) = eqb (b / 16) 14

unfoldable pub is_ip_free : List IpamRecord → Ip → Bool
unfolding ip_string
is_ip_free [] ip = true
is_ip_free (rec ∷ records) ip = if ip_string ip == rec.ip then false else is_ip_free records ip

-- `incrementIP` runs from the last byte and stops at the first that does not become 0; the flag
-- says that the loop has not stopped yet.
unfoldable pub increment_from : Ip → Ip × Bool
increment_from [] = ([], true)
increment_from (b ∷ bs) =
    let (bs', going) = increment_from bs in
    if going then (((b + 1) % 256) ∷ bs', eqb ((b + 1) % 256) 0) else (b ∷ bs', false)

unfoldable pub increment_ip : Ip → Ip
unfolding increment_from
increment_ip ip = (increment_from ip).0

-- The addresses that the loop of `addService` skips.
unfoldable pub skips : IpNet → Ip → Bool
unfolding is_multicast net_string
skips net ip = is_multicast ip || contains (net_string net) (ip_string ip)

-- What the loop comes to: it has not ended yet, no address is left, or a free one is found.
pub data Search : Type 0 where
  unfinished exhausted : Search
  free : Ip → Search

unfoldable pub find_free : ℕ → IpNet → List IpamRecord → Ip → Search
unfolding net_contains skips is_ip_free increment_ip
find_free zero net records ip = unfinished
find_free (suc f) net records ip =
    let rest = find_free f net records (increment_ip ip) in
    if not (net_contains net ip)
    then exhausted
    else if skips net ip
    then rest
    else if is_ip_free records ip
    then free ip
    else rest

-- `json.Marshal` and `WriteFile`; `writes` says whether the write succeeds.
unfoldable pub save : Bool → IpAlloc → IpAlloc
save writes i = if writes then record i { file = i.records } else i

unfoldable pub service_exist : List IpamRecord → String → Bool
service_exist [] name = false
service_exist (v ∷ records) name = if v.host == name then true else service_exist records name

-- the zero record if there is none
unfoldable pub get_service_by_name : List IpamRecord → String → IpamRecord
get_service_by_name [] name = record { ip = ""; host = "" }
get_service_by_name (v ∷ records) name =
    if v.host == name then v else get_service_by_name records name

-- The records without the first one of the service; `none` if there is none.
unfoldable pub delete_record : List IpamRecord → String → Option (List IpamRecord)
delete_record [] name = none
delete_record (v ∷ records) name =
    if v.host == name
    then some records
    else Option.map (λ rest. v ∷ rest) (delete_record records name)

-- What `addService` and `deleteService` return: an error, or the address.
pub data Answer : Type 0 where
  failed : String → Answer
  answered : String → Answer

abbrev pub deleted : IpAlloc → String → Option (List IpamRecord) → IpAlloc × Answer
deleted i name none = (i, failed (String.◌++◌ "Could not find record for " name))
deleted i name (some records) = (record i { records = records }, answered "")

unfoldable pub delete_service : String → IpAlloc → IpAlloc × Answer
unfolding delete_record
delete_service name i = deleted i name (delete_record i.records name)

abbrev pub allocate : Bool → String → IpAlloc → Search → Option (IpAlloc × Answer)
allocate writes name i unfinished = none
allocate writes name i exhausted = some (i, failed "no available IPAM")
allocate writes name i (free ip) = some (
  save writes (record i { records = i.records ++ record { ip = ip_string ip; host = name } ∷ [] }),
  answered (ip_string ip),
)

abbrev pub add_in : ℕ → Bool → String → IpAlloc → Option (Ip × IpNet) → Option (IpAlloc × Answer)
add_in f writes name i none = some (i, failed (String.◌++◌ "invalid CIDR address: " i.network_cidr))
add_in f writes name i (some (ip, net)) =
    allocate writes name i (find_free f net i.records (mask_ip net.ones ip))

-- `none`: the search has not ended, or the network is outside the model, since its text has a colon.
unfoldable pub add_service : ℕ → Bool → String → IpAlloc → Option (IpAlloc × Answer)
unfolding parse_cidr find_free save contains
add_service f writes name i =
    if contains i.network_cidr ":" then none else add_in f writes name i (parse_cidr i.network_cidr)

abbrev pub with_ip : Message → String → Message
with_ip msg ip = record msg { service = record (msg.service) { public_ip = ip } }

abbrev pub reply_deleted : Bool → Message → IpAlloc × Answer → IpAlloc × Message
reply_deleted writes msg (i, failed e) = (i, record msg { error = e })
reply_deleted writes msg (i, answered _) = (save writes i, with_ip msg "")

abbrev pub reply_added : Message → Option (IpAlloc × Answer) → Option (IpAlloc × Message)
reply_added msg none = none
reply_added msg (some (i, failed e)) = some (i, record msg { error = e })
reply_added msg (some (i, answered ip)) = some (i, with_ip msg ip)

abbrev pub reply_known : Message → IpamRecord → Message
reply_known msg rec = record msg {
  service = record (msg.service) { name = rec.host; public_ip = rec.ip };
}

-- One message of the loop of `Start`: the allocator, and the message that is sent back.
unfoldable pub handle : ℕ → Bool → Message → IpAlloc → Option (IpAlloc × Message)
unfolding delete_service save service_exist get_service_by_name add_service
handle f writes msg i =
    let updated = record msg { action = update_action } in
    if msg.action == delete_action
    then some (reply_deleted writes updated (delete_service msg.service.name i))
    else if service_exist i.records msg.service.name
    then some (i, reply_known updated (get_service_by_name i.records msg.service.name))
    else reply_added updated (add_service f writes msg.service.name i)

-- `load` at the start: `reads` says whether the file is read and its JSON decoded.
unfoldable pub load : Bool → IpAlloc → IpAlloc
load reads i = if reads then record i { records = i.file } else i
