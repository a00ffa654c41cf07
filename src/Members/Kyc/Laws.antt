-- ===== src/Members/Kyc/Laws.antt =====
-- What a review of documents does to a seller.
use iron_loot.Common.{ℕ, ◌≡◌, refl, true, some, arith}
use iron_loot.Exec.{ok}
use iron_loot.Table.{lookup, insert, lookup-insert_self}
use iron_loot.Market.Rows.{KycStatus}
use iron_loot.Methods.Rows.{Text}
use iron_loot.Members.Rows.{User, KycSubmission, Db}
use iron_loot.Members.Kyc.{enabled_at, approve, reject}

module _ (id admin : ℕ) (s : Db) (x : KycSubmission) (u : User) where
  abbrev approved_submission : KycSubmission
  approved_submission = record x { status = KycStatus.approved; reviewed_by = some admin }

  abbrev after_approval : Db
  after_approval = record s {
    submissions = insert id approved_submission s.submissions;
    users = insert x.user_id (enabled_at s.now u) s.users;
  }

  approve_lem :
      lookup id s.submissions ≡ some x
      → lookup x.user_id s.users ≡ some u
      → approve id admin s ≡ (ok tt, after_approval)
  unfolding approve
  approve_lem f g = ground arith

  abbrev rejected_submission : ℕ → Text → KycSubmission
  rejected_submission other reason = record approved_submission {
    status = KycStatus.rejected;
    reviewed_by = some other;
    review_notes = some reason;
  }

  reject_lem :
      (other : ℕ) (reason : Text)
      → reject id reason other after_approval ≡ (
        ok tt,
        record after_approval {
          submissions =
              insert id
                (rejected_submission other reason)
                (insert id approved_submission s.submissions);
        },
      )
  unfolding reject
  reject_lem other reason =
      let f = lookup-insert_self id approved_submission s.submissions in ground (arith, f)

  -- Rejecting documents that were approved returns and leaves the user a seller, with documents that
  -- are rejected.
  pub reject-approve :
      (other : ℕ) (reason : Text)
      → lookup id s.submissions ≡ some x
      → lookup x.user_id s.users ≡ some u
      → (v : User) × (y : KycSubmission) × ((reject id reason other (approve id admin s).1).0
          ≡ ok tt)
        × (lookup x.user_id (reject id reason other (approve id admin s).1).1.users ≡ some v)
        × (v.is_seller ≡ true)
        × (lookup id (reject id reason other (approve id admin s).1).1.submissions ≡ some y)
        × (y.status ≡ KycStatus.rejected)
  reject-approve other reason f g =
      let y = rejected_submission other reason in
      rw (approve_lem f g, reject_lem other reason)
        (
          enabled_at s.now u,
          y,
          refl,
          lookup-insert_self x.user_id _ s.users,
          refl,
          lookup-insert_self id y (insert id approved_submission s.submissions),
          refl,
        )
