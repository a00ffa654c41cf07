-- ===== src/Members/Settings/Laws.antt =====
-- What a change of settings keeps and what it sets.
use iron_loot.Common.{
  zero, suc, ℕ, ◌≡◌, refl, sym, ap, ◌∙◌, inl, inr, some, arith, ◌==◌, if◌then◌else◌, Bool-cases,
}
use iron_loot.Exec.{ok}
use iron_loot.Table.{Table, lookup, insert}
use iron_loot.Members.Settings.{
  Value, undefined, null, flag, number, text, array, object, Fields, end, field, get, put,
  deep_merge, merge_fields, merge_value, update_settings,
}

-- No name stands twice.
unfoldable pub IsObject : Fields → Type 0
IsObject end = Unit
IsObject (field k v fs) = (get k fs ≡ undefined) × IsObject fs

-- What becomes of one name: what is left out keeps its value, an array takes the place of an array,
-- an object is merged into an object, and all else takes the place of what was there.
unfoldable pub combined : Value → Value → Value
combined old undefined = old
combined (array ts) (array fs) = array fs
combined old new = deep_merge old new

get-put :
    (j k : ℕ) (v : Value) (fs : Fields) → get j (put k v fs) ≡ (if j == k then v else get j fs)
get-put j k v end = refl
get-put j k v (field i w fs) = ground (arith, get-put j k v fs)

merged_at :
    (j k : ℕ) (out : Fields) (old new : Value)
    → old ≡ get k out
    → get j (merge_value out k old new) ≡ (if j == k then combined old new else get j out)
unfolding deep_merge combined
merged_at j k out old undefined e = ground arith
merged_at j k out old null e = get-put j k null out
merged_at j k out old (flag b) e = get-put j k (flag b) out
merged_at j k out old (number n) e = get-put j k (number n) out
merged_at j k out old (text t) e = get-put j k (text t) out
merged_at j k out (array ts) (array fs) e = get-put j k (array fs) out
merged_at j k out (object ts) (array fs) e = get-put j k (object (merge_fields ts fs)) out
merged_at j k out (array ts) (object fs) e = get-put j k (object (merge_fields ts fs)) out
merged_at j k out (object ts) (object fs) e = get-put j k (object (merge_fields ts fs)) out
merged_at j k out undefined (array fs) e = get-put j k (array fs) out
merged_at j k out null (array fs) e = get-put j k (array fs) out
merged_at j k out (flag b) (array fs) e = get-put j k (array fs) out
merged_at j k out (number n) (array fs) e = get-put j k (array fs) out
merged_at j k out (text t) (array fs) e = get-put j k (array fs) out
merged_at j k out undefined (object fs) e = get-put j k (object fs) out
merged_at j k out null (object fs) e = get-put j k (object fs) out
merged_at j k out (flag b) (object fs) e = get-put j k (object fs) out
merged_at j k out (number n) (object fs) e = get-put j k (object fs) out
merged_at j k out (text t) (object fs) e = get-put j k (object fs) out

combined_undefined : (v w : Value) → w ≡ undefined → combined v w ≡ v
unfolding combined
combined_undefined v w e = rw e refl

combined_next :
    (j k : ℕ) (v : Value) (fs out : Fields)
    → get k fs ≡ undefined
    → combined (get j (merge_value out k (get k out) v)) (get j fs)
      ≡ combined (get j out) (if j == k then v else get j fs)
combined_next j k v fs out n = elim (Bool-cases (j == k)) [
  | inl q ↦
      let e : j ≡ k = ground arith in
      let m = get j (merge_value out k (get k out) v) in
      let here : m ≡ combined (get j out) v =
        ground (arith, merged_at j k out (get k out) v refl) in
      let gone : combined m (get j fs) ≡ m = combined_undefined m (get j fs) (rw e n) in
      gone ∙ here ∙ ap (combined (get j out)) (rw q refl)
  | inr q ↦
      let there : get j (merge_value out k (get k out) v) ≡ get j out =
        ground (arith, merged_at j k out (get k out) v refl) in
      rw (there, q) refl
]

get-merge_fields :
    (j : ℕ) (fs out : Fields)
    → IsObject fs
    → get j (merge_fields out fs) ≡ combined (get j out) (get j fs)
unfolding deep_merge IsObject
get-merge_fields j end out h = sym (combined_undefined (get j out) undefined refl)
get-merge_fields j (field k v fs) out (n, h) =
    let out' = merge_value out k (get k out) v in
    get-merge_fields j fs out' h ∙ combined_next j k v fs out n

-- In every object of the value no name stands twice.
unfoldable mutual
  pub IsPlain : Value → Type 0
  IsPlain undefined = Unit
  IsPlain null = Unit
  IsPlain (flag b) = Unit
  IsPlain (number n) = Unit
  IsPlain (text t) = Unit
  IsPlain (array fs) = ArePlain fs
  IsPlain (object fs) = ArePlain fs

  pub ArePlain : Fields → Type 0
  ArePlain end = Unit
  ArePlain (field k v fs) = (get k fs ≡ undefined) × IsPlain v × ArePlain fs

-- Each name of the result is made of the name in both.
abbrev pub ByName : (Value → Value → Value → Type 0) → Fields → Fields → Value → Type 0
ByName P ts fs r =
    (rs : Fields) × (r ≡ object rs) × ((key : ℕ) → P (get key ts) (get key fs) (get key rs))

-- What `new` makes of `old`, down to the depth `n`: what is left out keeps its value; an array takes
-- the place of an array; an object and an object or array are merged into an object, name by name;
-- all else takes the place of what was there.
unfoldable pub Updates : ℕ → Value → Value → Value → Type 0
Updates zero old new r = Unit
Updates (suc n) old undefined r = r ≡ old
Updates (suc n) (array ts) (array fs) r = r ≡ array fs
Updates (suc n) (array ts) (object fs) r = ByName (Updates n) ts fs r
Updates (suc n) (object ts) (array fs) r = ByName (Updates n) ts fs r
Updates (suc n) (object ts) (object fs) r = ByName (Updates n) ts fs r
Updates (suc n) old new r = r ≡ new

get-IsPlain : (key : ℕ) (fs : Fields) → ArePlain fs → IsPlain (get key fs)
unfolding IsPlain
get-IsPlain key end h = tt
get-IsPlain key (field k v fs) (n, p, h) = elim (Bool-cases (key == k)) [
  | inl q ↦ rw q p
  | inr q ↦ rw q (get-IsPlain key fs h)
]

ArePlain-IsObject : (fs : Fields) → ArePlain fs → IsObject fs
unfolding IsPlain IsObject
ArePlain-IsObject end h = tt
ArePlain-IsObject (field k v fs) (n, p, h) = (n, ArePlain-IsObject fs h)

combined-Updates : (n : ℕ) (old new : Value) → IsPlain new → Updates n old new (combined old new)
unfolding Updates deep_merge combined IsPlain
combined-Updates zero old new h = tt
combined-Updates (suc n) old undefined h = refl
combined-Updates (suc n) old null h = refl
combined-Updates (suc n) old (flag b) h = refl
combined-Updates (suc n) old (number x) h = refl
combined-Updates (suc n) old (text t) h = refl
combined-Updates (suc n) (array ts) (array fs) h = refl
combined-Updates (suc n) (array ts) (object fs) h = (
  merge_fields ts fs,
  refl,
  λ key.
      rw (get-merge_fields key fs ts (ArePlain-IsObject fs h))
        (combined-Updates n (get key ts) (get key fs) (get-IsPlain key fs h)),
)
combined-Updates (suc n) (object ts) (array fs) h = (
  merge_fields ts fs,
  refl,
  λ key.
      rw (get-merge_fields key fs ts (ArePlain-IsObject fs h))
        (combined-Updates n (get key ts) (get key fs) (get-IsPlain key fs h)),
)
combined-Updates (suc n) (object ts) (object fs) h = (
  merge_fields ts fs,
  refl,
  λ key.
      rw (get-merge_fields key fs ts (ArePlain-IsObject fs h))
        (combined-Updates n (get key ts) (get key fs) (get-IsPlain key fs h)),
)
combined-Updates (suc n) undefined (array fs) h = refl
combined-Updates (suc n) undefined (object fs) h = refl
combined-Updates (suc n) null (array fs) h = refl
combined-Updates (suc n) null (object fs) h = refl
combined-Updates (suc n) (flag b) (array fs) h = refl
combined-Updates (suc n) (flag b) (object fs) h = refl
combined-Updates (suc n) (number x) (array fs) h = refl
combined-Updates (suc n) (number x) (object fs) h = refl
combined-Updates (suc n) (text t) (array fs) h = refl
combined-Updates (suc n) (text t) (object fs) h = refl

module _ (user : ℕ) (ts fs : Fields) (t : Table Value) where
  -- A change of a user's settings, an object in which no name stands twice at any depth, is merged
  -- into the object that is stored. At every depth, a name that the change leaves out, or gives as
  -- `undefined`, keeps its value; an array takes the place of an array; an object over an object or
  -- an array, and an array over an object, are merged name by name; any other value takes the place
  -- of what was there.
  pub update_settings-Updates :
      lookup user t ≡ some (object ts)
      → ArePlain fs
      → (r : Value) × (update_settings user (object fs) t ≡ (ok r, insert user r t))
        × ((n : ℕ) → Updates n (object ts) (object fs) r)
  unfolding update_settings deep_merge combined IsPlain
  update_settings-Updates f h =
      (object (merge_fields ts fs), ground arith, λ n. combined-Updates n (object ts) (object fs) h)
