-- ===== src/Methods/Guesses.antt =====
-- Codes that are tried one after another, in src/api/src/modules/wallet/account-verification.service.ts.
use iron_loot.Common.{ℕ, ◌+◌, ◌≡◌, sym, inl, inr, false, some, List, [], ◌∷◌, arith, find_first}
use iron_loot.Table.{find_first-insert, find_first_holds}
use mathlib.Core.Path.{subst}
use iron_loot.Methods.Rows.{Text, VerificationStatus, AccountVerification, Db}
use iron_loot.Methods.Verification.{is_of_method, is_blocked, confirm}
use iron_loot.Methods.Laws.{IsGuarded, confirm_cases, left_over}

-- The owner tries the codes one after another, and time passes before each.
abbrev pub guess : ℕ → ℕ → List (ℕ × Text) → Db → Db
guess user_id method_id [] s = s
guess user_id method_id ((wait, code) ∷ codes) s =
    let s' : Db = record s { books = record s.books { now = s.books.now + wait } } in
    guess user_id method_id codes (confirm user_id method_id code s').1

module _ (user_id method_id : ℕ) where
  verified-IsGuarded :
      (v : AccountVerification) (at : ℕ)
      → is_blocked v.status ≡ false
      → IsGuarded v
      → IsGuarded (record v { status = VerificationStatus.verified; verified_at = some at })
  verified-IsGuarded v at b g =
      let l = left_over v b g in record { few = g.few; blocks = λ q. absurd (omega arith) }

  confirm-IsGuarded :
      (token : Text) (s : Db) (id : ℕ) (v : AccountVerification)
      → find_first (is_of_method method_id) s.verifications ≡ some (id, v)
      → IsGuarded v
      → (w : AccountVerification) × (find_first
            (is_of_method method_id)
            (confirm user_id method_id token s).1.verifications
          ≡ some (id, w))
        × IsGuarded w
  confirm-IsGuarded token s id v f g = elim (confirm_cases user_id method_id token s) [
    | inr r ↦ rw r.returns (r.guarded id v f g)
    | inl y ↦
        let a : y.id ≡ id = cc (y.latest, f) in
        let c : v ≡ y.verification = cc (y.latest, f) in
        let w : AccountVerification = record y.verification {
          status = VerificationStatus.verified;
          verified_at = some s.books.now;
        } in
        rw (y.returns, sym a)
          (
            w,
            find_first-insert (is_of_method method_id) y.id w s.verifications
                (find_first_holds (is_of_method method_id) s.verifications _ y.latest)
                (inr (y.verification, y.latest)),
            verified-IsGuarded y.verification s.books.now y.unblocked (subst IsGuarded c g),
          )
  ]

  -- However many codes a user tries, with whatever time between them, the latest verification of an
  -- account stays the latest one, counts at most five wrong codes, and is blocked once it counts
  -- five, if this holds at first.
  pub guess-IsGuarded :
      (codes : List (ℕ × Text)) (s : Db) (id : ℕ) (v : AccountVerification)
      → find_first (is_of_method method_id) s.verifications ≡ some (id, v)
      → IsGuarded v
      → (w : AccountVerification) × (find_first
            (is_of_method method_id)
            (guess user_id method_id codes s).verifications
          ≡ some (id, w))
        × IsGuarded w
  guess-IsGuarded [] s id v f g = (v, f, g)
  guess-IsGuarded ((wait, code) ∷ codes) s id v f g =
      let s' : Db = record s { books = record s.books { now = s.books.now + wait } } in
      let (w, e, h) = confirm-IsGuarded code s' id v f g in
      guess-IsGuarded codes (confirm user_id method_id code s').1 id w e h
