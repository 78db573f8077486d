-- ===== src/Batches/Finish.antt =====
-- When a batch is finished, whatever the order of the workers' transactions
-- (app/services/batch_store.py).
use tuzka_as_a_service.Prelude.{
  ℕ, ◌≡◌, refl, sym, ◌∙◌, ap, Bool, true, false, some, List, [], ◌∷◌, arith, ◌==◌, ==_iff,
  Bool-cases, inl, inr,
}
use tuzka_as_a_service.Redis.State.{JobStatus}
use tuzka_as_a_service.Batches.{PageJob, BatchStatus, queued_batch, finished_batch}
use tuzka_as_a_service.Batches.Progress.{
  is_active, has_active, finish_if_done, end_page, Phase, idle, updated, locked, committed, checked,
  Race, RaceStep, make_update, take_lock, run_finish, make_commit, RaceRun, no_step, and_step,
}

abbrev is_locked : Phase → Bool
is_locked idle = false
is_locked updated = false
is_locked committed = false
is_locked locked = true
is_locked (checked status) = true

-- A queued batch with a page left, or a finished one with none.
abbrev pub status_of : Bool → BatchStatus
status_of true = queued_batch
status_of false = finished_batch

end_page_active :
    (batch_id id : ℕ) (status : JobStatus) (jobs : List PageJob)
    → is_active status ≡ false
    → has_active batch_id jobs ≡ false
    → has_active batch_id (end_page id status jobs) ≡ false
end_page_active batch_id id status [] a h = refl
end_page_active batch_id id status (j ∷ jobs) a h =
    ground (arith, end_page_active batch_id id status jobs a, a, h)

finish-status_of :
    (batch_id : ℕ) (jobs before : List PageJob)
    → (has_active batch_id before ≡ false → has_active batch_id jobs ≡ false)
    → finish_if_done batch_id jobs (status_of (has_active batch_id before))
      ≡ status_of (has_active batch_id jobs)
unfolding finish_if_done
finish-status_of batch_id jobs before h = elim (Bool-cases (has_active batch_id before)) [
  | inl e ↦ elim (Bool-cases (has_active batch_id jobs)) [
    | inl a ↦ rw (e, a) refl
    | inr a ↦ rw (e, a) refl
  ]
  | inr e ↦ rw (e, h e) refl
]

module _ (batch_id : ℕ) (ends : ℕ → JobStatus) (over : (id : ℕ) → is_active (ends id) ≡ false) where
  -- Who holds the lock, what a check found, and the committed status of the batch.
  record IsSerial (s : Race) : Type 0 where
    holds : (id : ℕ) → is_locked (s.phases id) ≡ true → s.holder ≡ some id
    accurate :
        (id : ℕ) (status : BatchStatus)
        → s.phases id ≡ checked status
        → status ≡ status_of (has_active batch_id (end_page id (ends id) s.jobs))
    right : s.batch ≡ status_of (has_active batch_id s.jobs)

  RaceStep-IsSerial : {s t : Race} → RaceStep batch_id ends s t → IsSerial s → IsSerial t
  RaceStep-IsSerial {s} (make_update id p) h = record {
    holds = λ x l. elim (Bool-cases (id == x)) [
      | inl e ↦ absurd (ground (arith, e, l))
      | inr e ↦ h.holds x (ground (arith, e, l))
    ];
    accurate = λ x status q. elim (Bool-cases (id == x)) [
      | inl e ↦ absurd (ground (arith, e, q))
      | inr e ↦ h.accurate x status (ground (arith, e, q))
    ];
    right = h.right;
  }
  RaceStep-IsSerial {s} (take_lock id p free) h = record {
    holds = λ x l. elim (Bool-cases (id == x)) [
      | inl e ↦ ap some ((==_iff id x).0 e)
      | inr e ↦
          let before : is_locked (s.phases x) ≡ true = ground (arith, e, l) in
          absurd (cc (free, h.holds x before))
    ];
    accurate = λ x status q. elim (Bool-cases (id == x)) [
      | inl e ↦ absurd (ground (arith, e, q))
      | inr e ↦ h.accurate x status (ground (arith, e, q))
    ];
    right = h.right;
  }
  RaceStep-IsSerial {s} (run_finish id p) h = record {
    holds = λ x l. elim (Bool-cases (id == x)) [
      | inl e ↦
          let own : id ≡ x = (==_iff id x).0 e in
          let held : is_locked (s.phases id) ≡ true = rw p refl in cc (own, h.holds id held)
      | inr e ↦ h.holds x (ground (arith, e, l))
    ];
    accurate = λ x status q. elim (Bool-cases (id == x)) [
      | inl e ↦
          let own : id ≡ x = (==_iff id x).0 e in
          let mine : checked (finish_if_done batch_id (end_page id (ends id) s.jobs) s.batch)
              ≡ checked status =
            ground (arith, e, q) in
          let found : finish_if_done batch_id (end_page id (ends id) s.jobs) s.batch ≡ status =
            cc mine in
          let seen =
            finish-status_of batch_id (end_page id (ends id) s.jobs) s.jobs
              (end_page_active batch_id id (ends id) s.jobs (over id)) in
          rw (← own) (sym found ∙ rw h.right seen)
      | inr e ↦ h.accurate x status (ground (arith, e, q))
    ];
    right = h.right;
  }
  RaceStep-IsSerial {s} (make_commit id status p) h =
      let held : s.holder ≡ some id = h.holds id (rw p refl) in
      record {
        holds = λ x l. elim (Bool-cases (id == x)) [
          | inl e ↦ absurd (ground (arith, e, l))
          | inr e ↦ absurd (alone x e held (ground (arith, e, l)))
        ];
        accurate = λ x found q. elim (Bool-cases (id == x)) [
          | inl e ↦ absurd (ground (arith, e, q))
          | inr e ↦
              let other : s.phases x ≡ checked found = ground (arith, e, q) in
              absurd (alone x e held (rw other refl))
        ];
        right = h.accurate id status p;
      }
    where
      -- No other transaction has the lock.
      alone : (x : ℕ) → (id == x) ≡ false → s.holder ≡ some id → is_locked (s.phases x) ≡ true → ⊥
      alone x e held l = let same : id ≡ x = cc (held, h.holds x l) in cc (e, (==_iff id x).1 same)

  RaceRun-IsSerial : {s t : Race} → RaceRun batch_id ends s t → IsSerial s → IsSerial t
  RaceRun-IsSerial no_step h = h
  RaceRun-IsSerial (and_step run step) h = RaceStep-IsSerial step (RaceRun-IsSerial run h)

-- A race that starts: a queued batch with a page left, and no open transaction.
pub record IsStart (batch_id : ℕ) (s : Race) : Type 0 where
  pub queued_yet : s.batch ≡ queued_batch
  pub page_left : has_active batch_id s.jobs ≡ true
  pub all_idle : (id : ℕ) → s.phases id ≡ idle

-- In whatever order workers end a batch's pages, each in a transaction that updates its page, locks the
-- batch's row, runs `_FINISH` and commits: from a queued batch with a page left and with no open
-- transaction, the committed status is `finished` exactly when no committed page of the batch is left
-- to run, and `queued` before. So the last commit finishes the batch, and none does so too early.
pub RaceRun-status_of :
    (batch_id : ℕ) (ends : ℕ → JobStatus) (s t : Race)
    → ((id : ℕ) → is_active (ends id) ≡ false)
    → IsStart batch_id s
    → RaceRun batch_id ends s t
    → t.batch ≡ status_of (has_active batch_id t.jobs)
RaceRun-status_of batch_id ends s t over start run =
    (RaceRun-IsSerial batch_id ends over run (record {
      holds = λ id l. absurd (idle_unlocked (s.phases id) (start.all_idle id) l);
      accurate = λ id status q. absurd (cc (q, start.all_idle id));
      right = start.queued_yet ∙ rw start.page_left refl;
    })).right
  where
    idle_unlocked : (p : Phase) → p ≡ idle → is_locked p ≡ true → ⊥
    idle_unlocked p e l = cc (ap is_locked e, l)
