-- ===== src/Log/Names.antt =====
-- A name is taken apart without a loss: the package and the function that the log shows are the two
-- parts of the caller's name.
use Prim.Native.String
use package.text.Mathlib.TextLemmas.{nil-append, cons-append, append-nil}
use interlook.Prelude.{
  ℕ, String, ◌≡◌, refl, sym, ap, ◌∙◌, ◌≢◌, Bool, true, false, Option, none, some, List, [], ◌∷◌,
  ◌++◌, append_assoc, arith, split, join, split-cons, join-one, join-split, join-append, join-two,
  split-append_all, Lacks, split-Lacks,
}
use interlook.Strconv.{text}
use interlook.Log.{
  Caller, CallInfo, Ends, put_before, ends, opens_receiver, dotted, base, info_of, info_at,
  retrieve_call_info,
}

abbrev joined : Ends → List String
joined e = e.before ++ e.next_last ∷ e.last ∷ []

ends-joined :
    (a b : String) (parts : List String)
    → (e : Ends) × (ends (a ∷ b ∷ parts) ≡ some e) × (a ∷ b ∷ parts ≡ joined e)
unfolding ends
ends-joined a b [] = (record { before = []; next_last = a; last = b }, refl, refl)
ends-joined a b (c ∷ parts) =
    let (e, h, g) = ends-joined b c parts in
    (record e { before = a ∷ e.before }, ap (put_before a) h, ap (λ ps. a ∷ ps) g)

ends-append :
    (xs : List String) (a b : String)
    → ends (xs ++ a ∷ b ∷ []) ≡ some (record { before = xs; next_last = a; last = b })
unfolding ends
ends-append [] a b = refl
ends-append (x ∷ []) a b = refl
ends-append (x ∷ y ∷ []) a b = refl
ends-append (x ∷ y ∷ z ∷ xs) a b = ap (put_before x) (ends-append (y ∷ z ∷ xs) a b)

-- `package.function`
abbrev pub full_name : CallInfo → String
full_name info = text (info.package_name ∷ "." ∷ info.func_name ∷ [])

dotted_text : (s t : String) → text (s ∷ "." ∷ t ∷ []) ≡ String.◌++◌ s (String.◌∷◌ "." t)
dotted_text s t =
    ap (String.◌++◌ s)
      (cons-append "." String.[] _ ∙ ap (String.◌∷◌ ".") (nil-append _ ∙ append-nil t))

dotted-append_one :
    (x : String) (xs : List String) (y : String)
    → text (dotted (x ∷ xs) ∷ "." ∷ y ∷ []) ≡ dotted ((x ∷ xs) ++ y ∷ [])
dotted-append_one x xs y =
    dotted_text (dotted (x ∷ xs)) y
    ∙ sym (
        join-append "." x xs y []
        ∙ ap (λ s. String.◌++◌ (dotted (x ∷ xs)) (String.◌∷◌ "." s)) (join-one "." y))

dotted-append_two :
    (x : String) (xs : List String) (y z : String)
    → text (dotted (x ∷ xs) ∷ "." ∷ text (y ∷ "." ∷ z ∷ []) ∷ []) ≡ dotted ((x ∷ xs) ++ y ∷ z ∷ [])
dotted-append_two x xs y z =
    dotted_text (dotted (x ∷ xs)) _
    ∙ (ap (λ s. String.◌++◌ (dotted (x ∷ xs)) (String.◌∷◌ "." s))
          (dotted_text y z ∙ sym (join-two "." y z))
        ∙ sym (join-append "." x xs y (z ∷ [])))

-- The name of a caller does not begin with a parenthesis.
abbrev pub IsProper : Caller → Type 0
IsProper c = opens_receiver c.name ≢ some true

opens-join :
    (x y : String) (ys : List String)
    → opens_receiver x ≡ some true
    → opens_receiver (dotted (x ∷ y ∷ ys)) ≡ some true
unfolding join
opens-join String.[] y ys h = ground (arith, h)
opens-join (String.◌∷◌ ch x) y ys h = rw (cons-append ch x _) h

abbrev name_or : Option CallInfo → String
name_or none = ""
name_or (some info) = full_name info

info_of-full_name :
    (c : Caller) (before : List String) (y z : String) (o : Option Bool) (info : CallInfo)
    → opens_receiver y ≡ o
    → opens_receiver (dotted (before ++ y ∷ z ∷ [])) ≢ some true
    → info_of c (record { before = before; next_last = y; last = z }) o ≡ some info
    → full_name info ≡ dotted (before ++ y ∷ z ∷ [])
info_of-full_name c before y z none info q p h = ground (arith, h)
info_of-full_name c [] y z (some true) info q p h = absurd (p (opens-join y z [] q))
info_of-full_name c (x ∷ xs) y z (some true) info q p h =
    sym (ap name_or h) ∙ dotted-append_two x xs y z
info_of-full_name c [] y z (some false) info q p h = sym (ap name_or h) ∙ dotted-append_one y [] z
info_of-full_name c (x ∷ xs) y z (some false) info q p h =
    sym (ap name_or h)
    ∙ (dotted-append_one x (xs ++ y ∷ []) z
        ∙ ap (λ ps. dotted (x ∷ ps)) (append_assoc xs (y ∷ []) (z ∷ [])))

info_at-full_name :
    (c : Caller) (x : String) (parts : List String) (info : CallInfo)
    → opens_receiver (dotted (x ∷ parts)) ≢ some true
    → info_at c (ends (x ∷ parts)) ≡ some info
    → full_name info ≡ dotted (x ∷ parts)
unfolding ends
info_at-full_name c x [] info p h = ground (arith, h)
info_at-full_name c x (y ∷ parts) info p h =
    let (e, found, same) = ends-joined x y parts in
    info_of-full_name c e.before e.next_last e.last (opens_receiver e.next_last) info refl
      (λ q. p (ap (λ ps. opens_receiver (dotted ps)) same ∙ q)) (sym (ap (info_at c) found) ∙ h)
    ∙ ap dotted (sym same)

-- Where the name of the caller does not begin with a parenthesis and `retrieveCallInfo` does not
-- panic, the package and the function that it gives, with a dot between them, are the name of
-- the caller.
pub retrieve_call_info-full_name :
    (c : Caller) (info : CallInfo)
    → IsProper c
    → retrieve_call_info c ≡ some info
    → full_name info ≡ c.name
unfolding retrieve_call_info
retrieve_call_info-full_name c info p h =
    let (x, parts, e) = split-cons b'.' c.name in
    let back = (ap dotted (sym e)) ∙ join-split "." c.name in
    info_at-full_name c x parts info (λ q. p (ap opens_receiver (sym back) ∙ q))
      (sym (ap (λ ps. info_at c (ends ps)) e) ∙ h)
    ∙ back

split-dotted_text :
    (s t : String) → split b'.' (text (s ∷ "." ∷ t ∷ [])) ≡ split b'.' s ++ split b'.' t
split-dotted_text s t = ap (split b'.') (dotted_text s t) ∙ split-append_all "." s t

-- A caller whose name is a package, a receiver and a method, of which the last two have no dot, is
-- logged with that package, and with the receiver and the method as its function.
pub retrieve_call_info-method :
    (file package_name receiver method : String) (line : ℕ)
    → opens_receiver receiver ≡ some true
    → Lacks b'.' receiver
    → Lacks b'.' method
    → let func_name = text (receiver ∷ "." ∷ method ∷ []) in
      retrieve_call_info
        (record { file = file; name = text (package_name ∷ "." ∷ func_name ∷ []); line = line })
      ≡ some (record {
        package_name = package_name;
        file_name = base file;
        func_name = func_name;
        line = line;
      })
unfolding retrieve_call_info
retrieve_call_info-method file package_name receiver method line o r m =
    let func_name = text (receiver ∷ "." ∷ method ∷ []) in
    let c : Caller = record {
      file = file;
      name = text (package_name ∷ "." ∷ func_name ∷ []);
      line = line;
    } in
    let parts : split b'.' c.name ≡ split b'.' package_name ++ receiver ∷ method ∷ [] =
      split-dotted_text package_name func_name
      ∙ ap (λ ps. split b'.' package_name ++ ps)
          (split-dotted_text receiver method
            ∙ rw (split-Lacks b'.' receiver r, split-Lacks b'.' method m) refl) in
    ap (λ ps. info_at c (ends ps)) parts
    ∙ (ap (info_at c) (ends-append (split b'.' package_name) receiver method)
        ∙ rw (o, join-split "." package_name) refl)
