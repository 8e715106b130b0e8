-- ===== src/Entries/Files/Restart.antt =====
-- What a restart keeps of the table.
use mathlib.Core.Option
use interlook.Prelude.{
  ℕ, suc, ◌<◌, String, ◌==◌, ◌≡◌, refl, ap, ◌∙◌, ◌≢◌, inl, inr, Bool, true, false, Option, none,
  some, List, [], ◌∷◌, ◌++◌, length, get_elem?, get_elem?-total, get_elem?-append_left,
  get_elem?-append_end, length-append, All, arith, eq_iff, ==_ne, subst, Bool-cases, Option-cases,
  if◌then◌else◌,
}
use interlook.Calls.{ok}
use interlook.Dict.{lookup, remove}
use interlook.Entry.{WorkflowEntry}
use interlook.Entries.{WorkflowEntries, init_workflow_entries}
use interlook.Entries.Files.{
  exported, exported_all, reloaded, Values, Disk, followed, value_at, put, put_all, save_entries,
  load_entries,
}

-- The entry of a service, without the pointer to it.
abbrev pub at_pointer : List WorkflowEntry → Option ℕ → Option WorkflowEntry
at_pointer heap none = none
at_pointer heap (some p) = get_elem? heap p

abbrev pub entry_of : WorkflowEntries → String → Option WorkflowEntry
entry_of we name = at_pointer we.heap (lookup name we.entries)

-- Every pointer of the map is valid.
abbrev pub IsClosedIn : ℕ → List (String × ℕ) → Type 0
IsClosedIn n entries = All (λ kp. kp.1 < n) entries

lookup-append :
    (m : List (String × ℕ)) (k name : String) (p : ℕ)
    → lookup name (remove k m ++ (k, p) ∷ []) ≡ (if k == name then some p else lookup name m)
unfolding lookup remove
lookup-append [] k name p = refl
lookup-append ((j, v) ∷ m) k name p = elim (Bool-cases (j == k)) [
  | inl here ↦
      let same : j ≡ k = (eq_iff j k).0 here in
      rw (here, lookup-append m k name p)
        (elim (Bool-cases (k == name)) [
          | inl at ↦ rw at refl
          | inr past ↦ rw (past, same, past) refl
        ])
  | inr other ↦
      rw (other, lookup-append m k name p)
        (elim (Bool-cases (j == name)) [
          | inl at ↦
              let apart : (k == name) ≡ false =
                ==_ne k name (λ e. ground (arith, eq_iff j name, eq_iff j k, e)) in
              rw (at, apart) refl
          | inr past ↦ rw past refl
        ])
]

lookup_closed :
    (n : ℕ) (m : List (String × ℕ)) (name : String) (p : ℕ)
    → IsClosedIn n m
    → lookup name m ≡ some p
    → p < n
unfolding lookup
lookup_closed n [] name p h e = absurd (cc)
lookup_closed n ((j, v) ∷ m) name p (q, h) e = elim (Bool-cases (j == name)) [
  | inl here ↦ ground (arith, rw here at e)
  | inr other ↦ lookup_closed n m name p h (rw other at e)
]

entry_of-put :
    (we : WorkflowEntries) (k : String) (e : WorkflowEntry) (name : String)
    → IsClosedIn (length we.heap) we.entries
    → entry_of (put k e we) name ≡ (if k == name then some e else entry_of we name)
unfolding put
entry_of-put we k e name h = elim (Bool-cases (k == name)) [
  | inl here ↦
      rw (lookup-append we.entries k name (length we.heap), here) (get_elem?-append_end we.heap e)
  | inr other ↦ elim (Option-cases (lookup name we.entries)) [
    | inl out ↦ rw (lookup-append we.entries k name (length we.heap), other, out) refl
    | inr (p, found) ↦
        rw (lookup-append we.entries k name (length we.heap), other, found)
          (get_elem?-append_left we.heap (e ∷ []) p
            (lookup_closed (length we.heap) we.entries name p h found))
  ]
]

IsClosedIn-more : (n : ℕ) (m : List (String × ℕ)) → IsClosedIn n m → IsClosedIn (suc n) m
IsClosedIn-more n [] h = tt
IsClosedIn-more n (kp ∷ m) (q, h) = (omega arith, IsClosedIn-more n m h)

IsClosedIn-put :
    (n : ℕ) (k : String) (m : List (String × ℕ))
    → IsClosedIn n m
    → IsClosedIn (suc n) (remove k m ++ (k, n) ∷ [])
unfolding remove
IsClosedIn-put n k [] h = (omega arith, tt)
IsClosedIn-put n k ((j, v) ∷ m) (q, h) = elim (Bool-cases (j == k)) [
  | inl here ↦ rw here (IsClosedIn-put n k m h)
  | inr other ↦ rw other (omega arith, IsClosedIn-put n k m h)
]

-- The last entry of a name, if there is one, or else what the table had.
abbrev pub found_or : Option WorkflowEntry → String → Values → Option WorkflowEntry
found_or d name [] = d
found_or d name ((k, e) ∷ read) = found_or (if k == name then some e else d) name read

entry_of-put_all :
    (read : Values) (we : WorkflowEntries) (name : String)
    → IsClosedIn (length we.heap) we.entries
    → entry_of (put_all read we) name ≡ found_or (entry_of we name) name read
unfolding put_all put
entry_of-put_all [] we name h = refl
entry_of-put_all ((k, e) ∷ read) we name h =
    let n : length (we.heap ++ e ∷ []) ≡ suc (length we.heap) =
      omega (arith, length-append we.heap (e ∷ [])) in
    entry_of-put_all read (put k e we) name (rw n (IsClosedIn-put (length we.heap) k we.entries h))
    ∙ ap (λ d. found_or d name read) (entry_of-put we k e name h)

-- No key stands twice.
abbrev pub AreKeys : List (String × ℕ) → Type 0
AreKeys [] = Unit
AreKeys ((k, p) ∷ entries) = All (λ kp. kp.0 ≢ k) entries × AreKeys entries

followed-cons :
    (heap : List WorkflowEntry) (k : String) (p : ℕ) (entries : List (String × ℕ))
    (e : WorkflowEntry)
    → get_elem? heap p ≡ some e
    → followed heap ((k, p) ∷ entries) ≡ (k, e) ∷ followed heap entries
unfolding followed
followed-cons heap k p entries e at = ap (λ o. value_at k o (followed heap entries)) at

-- An entry at the head is found if it has the name.
found_or-cons :
    (d : Option WorkflowEntry) (name : String) (heap : List WorkflowEntry) (k : String) (p : ℕ)
    (entries : List (String × ℕ)) (e : WorkflowEntry) (b : Bool)
    → get_elem? heap p ≡ some e
    → (k == name) ≡ b
    → found_or d name (exported_all (followed heap ((k, p) ∷ entries)))
      ≡ found_or (if b then some (exported e) else d) name (exported_all (followed heap entries))
found_or-cons d name heap k p entries e b at is =
    ap (λ l. found_or d name (exported_all l)) (followed-cons heap k p entries e at)
    ∙ ap
        (λ c.
          found_or (if c then some (exported e) else d) name (exported_all (followed heap entries)))
        is

found_or-absent :
    (d : Option WorkflowEntry) (name : String) (heap : List WorkflowEntry)
    (entries : List (String × ℕ))
    → All (λ kp. kp.0 ≢ name) entries
    → found_or d name (exported_all (followed heap entries)) ≡ d
unfolding followed
found_or-absent d name heap [] h = refl
found_or-absent d name heap ((k, p) ∷ entries) (q, h) = elim (Option-cases (get_elem? heap p)) [
  | inl out ↦ rw out (found_or-absent d name heap entries h)
  | inr (e, at) ↦
      found_or-cons d name heap k p entries e false at (==_ne k name q)
      ∙ found_or-absent d name heap entries h
]

pub found_or-followed :
    (name : String) (heap : List WorkflowEntry) (entries : List (String × ℕ))
    → IsClosedIn (length heap) entries
    → AreKeys entries
    → found_or none name (exported_all (followed heap entries))
      ≡ Option.map exported (at_pointer heap (lookup name entries))
unfolding followed lookup
found_or-followed name heap [] h keys = refl
found_or-followed name heap ((k, p) ∷ entries) (q, h) (first, keys) =
    let (e, at) = get_elem?-total heap p q in
    elim (Bool-cases (k == name)) [
      | inl here ↦
          let same : k ≡ name = (eq_iff k name).0 here in
          found_or-cons none name heap k p entries e true at here
          ∙ found_or-absent (some (exported e)) name heap entries
              (subst (λ n. All (λ kp. kp.0 ≢ n) entries) same first)
          ∙ rw (here, at) refl
      | inr other ↦
          found_or-cons none name heap k p entries e false at other
          ∙ found_or-followed name heap entries h keys
          ∙ rw other refl
    ]

-- The file has the text that was last written to it after it was emptied, and the JSON of the
-- entries `l` is read back without their transitions.
pub record IsDisk {W : Type 0} (disk : Disk W) (content : W → String) (l : Values) : Type 0 where
  pub opens : (w : W) → (w' : W) × (disk.open_file w ≡ (w', ok tt))
  pub truncates : (w : W) → content (disk.truncate w).0 ≡ ""
  pub seeks : (w : W) → content (disk.seek w).0 ≡ content w
  pub writes :
      (s : String) (w : W)
      → content w ≡ ""
      → (w' : W) × (disk.write s w ≡ (w', ok tt)) × (content w' ≡ s)
  pub syncs : (w : W) → content (disk.sync w).0 ≡ content w
  pub closes : (w : W) → content (disk.close_file w).0 ≡ content w
  pub reads : (w : W) → disk.read_file w ≡ (w, ok (content w))
  pub reads_back :
      (s : String) × (disk.marshal l ≡ ok s) × (disk.unmarshal s ≡ (exported_all l, none))

module _ {W : Type 0} (disk : Disk W) (content : W → String) (we : WorkflowEntries)
    (d : IsDisk disk content (followed we.heap we.entries)) where
  save_entries_lem :
      (w : W) (s : String)
      → disk.marshal (followed we.heap we.entries) ≡ ok s
      → (w' : W) × (save_entries disk we w ≡ (w', ok tt)) × (content w' ≡ s)
  unfolding save_entries
  save_entries_lem w s made =
      let (w₁, opened) = d.opens w in
      let w₂ = (disk.truncate w₁).0 in
      let w₃ = (disk.seek w₂).0 in
      let (w₄, wrote, has) = d.writes s w₃ (d.seeks w₂ ∙ d.truncates w₁) in
      (
        (disk.close_file (disk.sync w₄).0).0,
        rw (opened, made, wrote) refl,
        d.closes (disk.sync w₄).0 ∙ d.syncs w₄ ∙ has,
      )

  -- If no key of the table stands twice and every pointer is valid, and the file and its JSON
  -- are read back as they were written, but for the transitions of the entries, which are not
  -- exported, then `save` ends without an error, and `load` into a new table ends without an
  -- error in the table of a restart, which gives every service its entry, without the
  -- transition, and no other service one.
  pub load_entries-save_entries :
      (w : W)
      → IsClosedIn (length we.heap) we.entries
      → AreKeys we.entries
      → (w' : W) × (save_entries disk we w ≡ (w', ok tt))
        × (load_entries disk init_workflow_entries w' ≡ (w', reloaded we, none))
        × ((name : String) → entry_of (reloaded we) name ≡ Option.map exported (entry_of we name))
  unfolding load_entries init_workflow_entries lookup reloaded
  load_entries-save_entries w closed keys =
      let (s, made, back) = d.reads_back in
      let (w', saved, has) = save_entries_lem w s made in
      (
        w',
        saved,
        rw (d.reads w', has, back) refl,
        λ name.
            entry_of-put_all (exported_all (followed we.heap we.entries)) init_workflow_entries name
              tt
            ∙ found_or-followed name we.heap we.entries closed keys,
      )
