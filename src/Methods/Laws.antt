-- ===== src/Methods/Laws.antt =====
-- What it takes to verify an account, in src/api/src/modules/wallet/account-verification.service.ts.
use iron_loot.Common.{
  ℕ, ◌≤◌, ◌≡◌, refl, ◌≢◌, ◌⊎◌, inl, inr, Bool, true, false, some, arith, ltb, leb, ◌==◌, Bool-cases,
  Option-cases, find_first,
}
use iron_loot.Exec.{Error, Result, ok, err, not_found, bad_request}
use iron_loot.Table.{lookup, insert, find_first-insert, find_first_holds}
use mathlib.Core.Path.{subst}
use iron_loot.Methods.Rows.{
  Text, PaymentMethod, VerificationStatus, AccountVerification, Db, same_text,
}
use iron_loot.Methods.Verification.{
  normalizar, is_of_method, is_blocked, is_pending, one_more, confirm,
}

-- The owner gives the code of the latest verification, which is not pending, not blocked and not
-- over: one whose charge failed passes too.
pub record Verifies (user_id method_id : ℕ) (token : Text) (s : Db) : Type 0 where
  pub method : PaymentMethod
  pub id : ℕ
  pub verification : AccountVerification
  pub known : lookup method_id s.methods ≡ some method
  pub owned : method.user_id ≡ user_id
  pub latest : find_first (is_of_method method_id) s.verifications ≡ some (id, verification)
  pub is_out : is_pending verification.status ≡ false
  pub unblocked : is_blocked verification.status ≡ false
  pub in_time : s.books.now ≤ verification.expires_at
  pub matches : same_text (normalizar token) (normalizar verification.token) ≡ true
  pub returns : confirm user_id method_id token s ≡ (
    ok true,
    record s {
      methods = insert method_id (record method { is_verified = true }) s.methods;
      verifications =
          insert id
            (record verification {
              status = VerificationStatus.verified;
              verified_at = some s.books.now;
            })
            s.verifications;
    },
  )

-- Few wrong codes were given: five of them block the verification.
pub record IsGuarded (v : AccountVerification) : Type 0 where
  pub few : v.attempts ≤ 5
  pub blocks : 5 ≤ v.attempts → is_blocked v.status ≡ true

-- A verification that is not blocked has an attempt left.
pub left_over :
    (v : AccountVerification) → is_blocked v.status ≡ false → IsGuarded v → v.attempts ≤ 4
left_over v b g = elim (Bool-cases (leb 5 v.attempts)) [
  | inl q ↦ absurd (ground (arith, g.blocks (ground arith)))
  | inr q ↦ ground arith
]

one_more-IsGuarded :
    (v : AccountVerification) → is_blocked v.status ≡ false → IsGuarded v → IsGuarded (one_more v)
one_more-IsGuarded v b g =
    let l = left_over v b g in record { few = omega arith; blocks = λ q. ground arith }

expired-IsGuarded :
    (v : AccountVerification)
    → is_blocked v.status ≡ false
    → IsGuarded v
    → IsGuarded (record v { status = VerificationStatus.expired })
expired-IsGuarded v b g =
    let l = left_over v b g in record { few = g.few; blocks = λ q. absurd (omega arith) }

-- No account is verified; the latest verification, if there is one, stays the latest and guarded.
pub record Refuses (user_id method_id : ℕ) (token : Text) (s : Db) : Type 0 where
  pub result : Result Bool
  pub after : Db
  pub returns : confirm user_id method_id token s ≡ (result, after)
  pub denied : result ≢ ok true
  pub same_methods : after.methods ≡ s.methods
  pub guarded :
      (id : ℕ) (v : AccountVerification)
      → find_first (is_of_method method_id) s.verifications ≡ some (id, v)
      → IsGuarded v
      → (w : AccountVerification) × (find_first (is_of_method method_id) after.verifications
          ≡ some (id, w))
        × IsGuarded w

module _ (user_id method_id : ℕ) (token : Text) (s : Db) where
  refused :
      (e : Error)
      → confirm user_id method_id token s ≡ (err e, s)
      → Refuses user_id method_id token s
  refused e q = record {
    result = err e;
    after = s;
    returns = q;
    denied = λ x. cc;
    same_methods = refl;
    guarded = λ id v f g. (v, f, g);
  }

  module _ (m : PaymentMethod) (k : lookup method_id s.methods ≡ some m)
      (o : (m.user_id == user_id) ≡ true) (id : ℕ) (v : AccountVerification)
      (f : find_first (is_of_method method_id) s.verifications ≡ some (id, v)) where
    is_its_method : (v.payment_method_id == method_id) ≡ true
    is_its_method = find_first_holds (is_of_method method_id) s.verifications (id, v) f

    written :
        (w : AccountVerification)
        → w.payment_method_id ≡ v.payment_method_id
        → find_first (is_of_method method_id) (insert id w s.verifications) ≡ some (id, w)
    written w e =
        find_first-insert (is_of_method method_id) id w s.verifications
          (ground (arith, is_its_method)) (inr (v, f))

    kept-IsGuarded :
        (w : AccountVerification)
        → w.payment_method_id ≡ v.payment_method_id
        → (IsGuarded v → IsGuarded w)
        → (i : ℕ) (u : AccountVerification)
        → find_first (is_of_method method_id) s.verifications ≡ some (i, u)
        → IsGuarded u
        → (x : AccountVerification) × (find_first
              (is_of_method method_id)
              (insert id w s.verifications)
            ≡ some (i, x))
          × IsGuarded x
    kept-IsGuarded w q h i u e g =
        let a : i ≡ id = cc in
        let c : u ≡ v = cc in (w, rw a (written w q), h (subst IsGuarded c g))

    pending_refused : is_pending v.status ≡ true → Refuses user_id method_id token s
    unfolding confirm
    pending_refused q = record {
      result = ok false;
      after = s;
      returns = ground arith;
      denied = λ x. ground arith;
      same_methods = refl;
      guarded = λ i w e g. (w, e, g);
    }

    module _ (p : is_pending v.status ≡ false) where
      blocked_refused : is_blocked v.status ≡ true → Refuses user_id method_id token s
      unfolding confirm
      blocked_refused b = refused bad_request (ground arith)

      module _ (b : is_blocked v.status ≡ false) where
        expired_refused : ltb v.expires_at s.books.now ≡ true → Refuses user_id method_id token s
        unfolding confirm
        expired_refused x =
            let w : AccountVerification = record v { status = VerificationStatus.expired } in
            record {
              result = ok false;
              after = record s { verifications = insert id w s.verifications };
              returns = ground arith;
              denied = λ q. ground arith;
              same_methods = refl;
              guarded = kept-IsGuarded w refl (expired-IsGuarded v b);
            }

        wrong_refused :
            ltb v.expires_at s.books.now ≡ false
            → same_text (normalizar token) (normalizar v.token) ≡ false
            → Refuses user_id method_id token s
        unfolding confirm
        wrong_refused x t = record {
          result = ok false;
          after = record s { verifications = insert id (one_more v) s.verifications };
          returns = ground arith;
          denied = λ q. ground arith;
          same_methods = refl;
          guarded = kept-IsGuarded (one_more v) refl (one_more-IsGuarded v b);
        }

        right-Verifies :
            ltb v.expires_at s.books.now ≡ false
            → same_text (normalizar token) (normalizar v.token) ≡ true
            → Verifies user_id method_id token s
        unfolding confirm
        right-Verifies x t = record {
          method = m;
          id = id;
          verification = v;
          known = k;
          owned = ground arith;
          latest = f;
          is_out = p;
          unblocked = b;
          in_time = ground arith;
          matches = t;
          returns = ground arith;
        }

module _ (user_id method_id : ℕ) (token : Text) (s : Db) (m : PaymentMethod)
    (k : lookup method_id s.methods ≡ some m) (o : (m.user_id == user_id) ≡ true) (id : ℕ)
    (v : AccountVerification)
    (f : find_first (is_of_method method_id) s.verifications ≡ some (id, v)) where
  code_cases : Verifies user_id method_id token s ⊎ Refuses user_id method_id token s
  code_cases = elim (Bool-cases (is_pending v.status)) [
    | inl p ↦ inr (pending_refused user_id method_id token s m k o id v f p)
    | inr p ↦ elim (Bool-cases (is_blocked v.status)) [
      | inl b ↦ inr (blocked_refused user_id method_id token s m k o id v f p b)
      | inr b ↦ elim (Bool-cases (ltb v.expires_at s.books.now)) [
        | inl x ↦ inr (expired_refused user_id method_id token s m k o id v f p b x)
        | inr x ↦ elim (Bool-cases (same_text (normalizar token) (normalizar v.token))) [
          | inl t ↦ inl (right-Verifies user_id method_id token s m k o id v f p b x t)
          | inr t ↦ inr (wrong_refused user_id method_id token s m k o id v f p b x t)
        ]
      ]
    ]
  ]

-- An account becomes verified only when its owner gives the code of the latest verification of it,
-- which is neither pending nor blocked and not over, and then that account and no other is; in
-- every other case no account changes and the answer is not that it is verified, and a guarded
-- latest verification, with at most five attempts and blocked at five, stays the latest and
-- guarded.
pub confirm_cases :
    (user_id method_id : ℕ) (token : Text) (s : Db)
    → Verifies user_id method_id token s ⊎ Refuses user_id method_id token s
unfolding confirm
confirm_cases user_id method_id token s = elim (Option-cases (lookup method_id s.methods)) [
  | inl e ↦ inr (refused user_id method_id token s not_found (ground arith))
  | inr (m, k) ↦ elim (Bool-cases (m.user_id == user_id)) [
    | inr o ↦ inr (refused user_id method_id token s not_found (ground arith))
    | inl o ↦ elim (Option-cases (find_first (is_of_method method_id) s.verifications)) [
      | inl e ↦ inr (refused user_id method_id token s not_found (ground arith))
      | inr ((id, v), f) ↦ code_cases user_id method_id token s m k o id v f
    ]
  ]
]
