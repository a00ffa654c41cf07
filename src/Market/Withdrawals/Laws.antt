-- ===== src/Market/Withdrawals/Laws.antt =====
-- What a withdrawal goes through, from its request to its end.
use iron_loot.Common.{
  find_first, ℕ, ◌+◌, ◌<◌, ◌≡◌, refl, sym, ap, ◌∙◌, ◌⊎◌, inl, inr, true, false, Option, some, arith,
  ◌==◌, Bool-cases, Option-cases, ℤ, pos, ◌+ℤ◌, ◌-ℤ◌, ◌≤ℤ◌, ltb_ℤ, int_laws,
}
use iron_loot.Exec.{Error, ok, err, bad_request}
use iron_loot.Table.{find_first_holds, lookup, insert, lookup-insert_self}
use iron_loot.Wallet.Rows.{Wallet, Books, new_wallet}
use iron_loot.Wallet.Payouts.{
  paid_out, paid_back, moved_by, shown, withdraw_covered, refund_withdrawal_found,
  get_balance_found, get_balance_new,
}
use iron_loot.Wallet.{get_balance}
use iron_loot.Market.Rows.{WithdrawalRequest, WithdrawalStatus, PaymentMethod, KycStatus, Db}
use iron_loot.Market.Withdrawals.{
  request, approve, reject, mark_paid, sum_withdrawals, user_payment_method, is_method_of,
  is_approved,
}

abbrev pub requested_by : ℕ → ℕ → ℕ → WithdrawalRequest
requested_by user amount method = record {
  user_id = user;
  payment_method_id = method;
  amount = amount;
  status = WithdrawalStatus.requested;
}

-- A request that is paid or rejected is final: no call changes it, or anything else.
abbrev pub IsFinal : WithdrawalStatus → Type 0
IsFinal status = (status ≡ WithdrawalStatus.paid) ⊎ (status ≡ WithdrawalStatus.rejected)

-- A request that is paid or rejected is final: approving, rejecting and paying it all throw and
-- write nothing.
pub final_refused :
    (k : ℕ) (r : WithdrawalRequest) (s : Db)
    → lookup k s.withdrawals ≡ some r
    → IsFinal r.status
    → (approve k s ≡ (err bad_request, s))
      × (reject k s ≡ (err bad_request, s))
      × (mark_paid k s ≡ (err bad_request, s))
unfolding approve reject mark_paid
final_refused k r s e h = ground arith

-- What a request that is accepted has met: a positive amount, an approved identity, an active and
-- verified method of the user's own under the reference that is given, and an amount that the available balance covers and the day's limit allows.
pub record Accepted (user amount method : ℕ) (s : Db) : Type 0 where
  pub wallet : Wallet
  pub found : lookup user s.books.wallets ≡ some wallet
  pub positive : 0 < amount
  pub approved : lookup user s.kyc ≡ some KycStatus.approved
  pub verified :
      (id : ℕ) × (m : PaymentMethod) × (find_first (is_method_of user method) s.payment_methods
        ≡ some (id, m))
      × (m.user_id ≡ user)
      × (m.reference_id ≡ method)
      × (m.is_active ≡ true)
      × (m.is_verified ≡ true)
  pub covered : pos amount ≤ℤ wallet.balance
  pub within_limit :
      sum_withdrawals user s.books.now s.books.ledger +ℤ pos amount
      ≤ℤ pos s.settings.withdrawal_daily_limit
  pub returns : request user amount method s ≡ (
    ok s.next_id,
    record s {
      books = paid_out user (pos amount) s.next_id wallet s.books;
      withdrawals = insert s.next_id (requested_by user amount method) s.withdrawals;
      next_id = s.next_id + 1;
    },
  )

-- A request that throws: it may have made the user's wallet, which is empty, and nothing else.
pub record Refused (user amount method : ℕ) (s : Db) : Type 0 where
  pub error : Error
  pub books : Books
  pub returns : request user amount method s ≡ (err error, record s { books = books })
  pub same : (books ≡ s.books) ⊎ (get_balance user s.books ≡ (ok (shown (new_wallet false)), books))

refused :
    (user amount method : ℕ) (s : Db)
    → request user amount method s ≡ (err bad_request, s)
    → Refused user amount method s
refused user amount method s h = record {
  error = bad_request;
  books = s.books;
  returns = h;
  same = inl refl;
}

approved_of : (k : Option KycStatus) → is_approved k ≡ true → k ≡ some KycStatus.approved
approved_of k h = ground arith

method_of :
    (user reference id : ℕ) (m : PaymentMethod)
    → is_method_of user reference (id, m) ≡ true
    → (m.user_id ≡ user) × (m.reference_id ≡ reference) × (m.is_active ≡ true)
method_of user reference id m h = (ground arith, ground arith, ground arith)

-- A withdrawal request is accepted only with a positive amount, an approved identity, an active and
-- verified method of the user's own under the reference that is given, an available balance that
-- covers it and a day's limit that allows it, and then exactly its amount leaves the available
-- balance and the request is on record. Any other request throws, and at most makes an empty
-- wallet.
pub request_cases :
    (user amount method : ℕ) (s : Db) → Accepted user amount method s ⊎ Refused user amount method s
unfolding request
request_cases user amount method s = elim (Bool-cases (amount == 0)) [
  | inl z ↦ inr (refused user amount method s (ground arith))
  | inr z ↦ elim (Bool-cases (is_approved (lookup user s.kyc))) [
    | inr a ↦ inr (refused user amount method s (ground arith))
    | inl a ↦ elim (Option-cases (user_payment_method user method s.payment_methods)) [
      | inl m ↦ inr (refused user amount method s (ground arith))
      | inr ((j, m), em) ↦ elim (Bool-cases m.is_verified) [
        | inr v ↦ inr (refused user amount method s (ground arith))
        | inl v ↦ elim (Option-cases (lookup user s.books.wallets)) [
          | inl e ↦ inr (record {
            error = bad_request;
            books = record s.books { wallets = insert user (new_wallet false) s.books.wallets };
            returns = ground (arith, get_balance_new user s.books e);
            same = inr (get_balance_new user s.books e);
          })
          | inr (w, e) ↦ elim (Bool-cases (ltb_ℤ w.balance (pos amount))) [
            | inl c ↦
                inr (
                  refused user amount method s (ground (arith, get_balance_found user w s.books e)))
            | inr c ↦
                let daily = sum_withdrawals user s.books.now s.books.ledger in
                elim (Bool-cases
                  (ltb_ℤ (pos s.settings.withdrawal_daily_limit) (daily +ℤ pos amount))) [
                    | inl d ↦ inr (
                        refused user amount method s
                          (ground (arith, get_balance_found user w s.books e)))
                    | inr d ↦ inl (record {
                      wallet = w;
                      found = e;
                      positive = ground arith;
                      approved = approved_of (lookup user s.kyc) a;
                      verified =
                          let q = method_of user method j m (
                            find_first_holds (is_method_of user method) s.payment_methods (j, m)
                              em) in
                          (j, m, em, q.0, q.1, q.2, v);
                      covered = ground arith;
                      within_limit = ground arith;
                      returns = ground (
                        arith,
                        get_balance_found user w s.books e,
                        withdraw_covered user (pos amount) s.next_id w s.books e (ground arith)
                            (ground arith),
                      );
                    })
                  ]
          ]
        ]
      ]
    ]
  ]
]

pub reject_lem :
    (k : ℕ) (r : WithdrawalRequest) (w : Wallet) (s : Db)
    → lookup k s.withdrawals ≡ some r
    → r.status ≡ WithdrawalStatus.requested
    → lookup r.user_id s.books.wallets ≡ some w
    → reject k s ≡ (
      ok tt,
      record s {
        books = paid_back r.user_id (pos r.amount) k w s.books;
        withdrawals = insert k (record r { status = WithdrawalStatus.rejected }) s.withdrawals;
      },
    )
unfolding reject
reject_lem k r w s e h ew =
    ground (arith, refund_withdrawal_found r.user_id (pos r.amount) k w s.books ew)

reject_wallet :
    (k : ℕ) (r : WithdrawalRequest) (w : Wallet) (s : Db)
    → lookup k s.withdrawals ≡ some r
    → r.status ≡ WithdrawalStatus.requested
    → lookup r.user_id s.books.wallets ≡ some w
    → ((reject k s).0 ≡ ok tt)
      × (lookup r.user_id (reject k s).1.books.wallets
          ≡ some (moved_by w (w.balance +ℤ pos r.amount)))
reject_wallet k r w s e h ew =
    rw (reject_lem k r w s e h ew) (refl, lookup-insert_self r.user_id _ _)

back_and_forth : (w : Wallet) (x : ℤ) → moved_by w (w.balance -ℤ x +ℤ x) ≡ w
back_and_forth w x = ap (moved_by w) (omega int_laws)

-- A request that is accepted and then rejected leaves the user's wallet as it was before.
pub request-reject :
    (user amount method k : ℕ) (w : Wallet) (s : Db)
    → (request user amount method s).0 ≡ ok k
    → lookup user s.books.wallets ≡ some w
    → let s₁ = (request user amount method s).1 in
      (lookup user s₁.books.wallets ≡ some (moved_by w (w.balance -ℤ pos amount)))
      × ((reject k s₁).0 ≡ ok tt)
      × (lookup user (reject k s₁).1.books.wallets ≡ some w)
request-reject user amount method k w s h e = elim (request_cases user amount method s) [
  | inr r ↦ absurd (cc (r.returns))
  | inl a ↦
      let same : a.wallet ≡ w = cc (sym a.found ∙ e) in
      let id : k ≡ s.next_id = cc (h, a.returns) in
      let w₁ = moved_by w (w.balance -ℤ pos amount) in
      let r = requested_by user amount method in
      let s₁ : Db = record s {
        books = paid_out user (pos amount) s.next_id w s.books;
        withdrawals = insert s.next_id r s.withdrawals;
        next_id = s.next_id + 1;
      } in
      let back =
        reject_wallet s.next_id r w₁ s₁ (lookup-insert_self s.next_id r s.withdrawals) refl
          (lookup-insert_self user w₁ s.books.wallets) in
      rw (a.returns, id, same)
        (
          lookup-insert_self user w₁ s.books.wallets,
          back.0,
          back.1 ∙ ap some (back_and_forth w (pos amount)),
        )
]
