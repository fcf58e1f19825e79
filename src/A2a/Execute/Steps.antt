-- ===== src/A2a/Execute/Steps.antt =====
-- The life of one task in the plugin, as a relation on what the store has for it.
use flokoa.Common.{
  ℕ, suc, ◌≤◌, ◌<◌, ◌≡◌, ◌≢◌, refl, sym, subst, ◌∙◌, inl, inr, Bool, true, false, Bool-cases,
  Option, none, some, Text, ◌==◌, ==_iff, ==_refl, ltb, arith,
}
use flokoa.Common.Dict.{lookup-put}
use flokoa.A2a.Spec.{A2aSpec}
use flokoa.A2a.Store.{ProgressState, Codec, StateStore, is_timed_out, load}
use flokoa.A2a.Store.Cells.{load-store, load-delete, load-store_other, load-delete_other}
use flokoa.A2a.Reply.{A2aTask}
use flokoa.A2a.Execute.{
  World, Reply, Answer, accepted, ended, max_poll_errors, failed_reply, no_client, task_to_reply,
  after_answer, set_poll_errors, poll_failed, poll_answer, poll_task, new_progress,
}

abbrev pub with_errors : ProgressState → ℕ → ProgressState
with_errors p n = record p { poll_errors = n }

-- What the store has before a call, whether Argo is asked to call again, and what it has after.
pub data Step (w : World) : Option ProgressState → Bool → Option ProgressState → Type 0 where
  -- The call fails, or its task ends at once.
  ends : {o : Option ProgressState} → Step w o false o
  submits :
      {p : ProgressState} → p.start_time ≡ w.now → p.poll_errors ≡ 0 → Step w none true (some p)
  expires : {p : ProgressState} → is_timed_out w.now p ≡ true → Step w (some p) false none
  retries :
      {p : ProgressState}
      → is_timed_out w.now p ≡ false
      → suc p.poll_errors < max_poll_errors
      → Step w (some p) true (some (with_errors p (suc p.poll_errors)))
  gives_up :
      {p : ProgressState}
      → is_timed_out w.now p ≡ false
      → max_poll_errors ≤ suc p.poll_errors
      → Step w (some p) false (some (with_errors p (suc p.poll_errors)))
  waits :
      {p : ProgressState}
      → is_timed_out w.now p ≡ false
      → Step w (some p) true (some (with_errors p 0))
  finishes : {p : ProgressState} → is_timed_out w.now p ≡ false → Step w (some p) false none

-- One call, seen from the store: the step of its own task, and all others as before.
pub record Calls (w : World) (key : Text) (s : StateStore) (r : Reply) (s' : StateStore)
    : Type 0 where
  pub own : Step w (load key s) r.requeue (load key s')
  pub others : (other : Text) → key ≢ other → load other s' ≡ load other s

pub idle :
    (w : World) (key : Text) (s : StateStore) (r : Reply) → r.requeue ≡ false → Calls w key s r s
idle w key s r e = record {
  own = subst (λ b. Step w (load key s) b (load key s)) (sym e) ends;
  others = λ other ne. refl;
}

pub load-set :
    (key : Text) (p : ProgressState) (n : ℕ) (s : StateStore)
    → load key (set_poll_errors key p n s) ≡ some (with_errors p n)
unfolding load set_poll_errors
load-set key p n s = lookup-put key key (with_errors p n) s.cache ∙ rw (==_refl key) refl

load-set_other :
    (key other : Text) (p : ProgressState) (n : ℕ) (s : StateStore)
    → key ≢ other
    → load other (set_poll_errors key p n s) ≡ load other s
unfolding load set_poll_errors
load-set_other key other p n s ne =
    let apart : (key == other) ≡ false = ground (arith, ==_iff key other) in
    lookup-put key other (with_errors p n) s.cache ∙ rw apart refl

module _ (codec : Codec) (w : World) (key : Text) where
  pub answer-Calls :
      (spec : A2aSpec) (s : StateStore) (a : Answer)
      → load key s ≡ none
      → ((r : Reply) → a ≡ ended r → r.requeue ≡ false)
      → (let x = after_answer codec w key spec s a in Calls w key s x.0 x.1)
  answer-Calls spec s (ended r) e over = idle w key s r (over r refl)
  answer-Calls spec s (accepted endpoint task context) e over =
      let p = new_progress w spec endpoint task context in
      record {
        own = rw (e, load-store codec w.api key s p) (submits refl refl);
        others = λ other ne. load-store_other codec w.api key s other ne p;
      }

  pub poll-Calls :
      (s : StateStore) (p : ProgressState)
      → load key s ≡ some p
      → (let x = poll_task codec w s key p in Calls w key s x.0 x.1)
  unfolding poll_task task_to_reply
  poll-Calls s p e = elim (Bool-cases (is_timed_out w.now p)) [
    | inl late ↦ rw late (record {
      own = rw (e, load-delete codec w.api key s) (expires late);
      others = λ other ne. load-delete_other codec w.api key s other ne;
    })
    | inr early ↦ elim (Bool-cases (w.connects p.endpoint)) [
      | inl up ↦ rw (early, up) (answered early (w.get_task p.endpoint p.task_id))
      | inr down ↦ rw (early, down) (idle w key s (failed_reply no_client) refl)
    ]
  ]
    where
      failed_poll :
          is_timed_out w.now p ≡ false → (let x = poll_failed key p s in Calls w key s x.0 x.1)
      failed_poll early = elim (Bool-cases (ltb (suc p.poll_errors) max_poll_errors)) [
        | inl few ↦ rw few (record {
          own = rw (e, load-set key p (suc p.poll_errors) s) (retries early (ground arith));
          others = λ other ne. load-set_other key other p (suc p.poll_errors) s ne;
        })
        | inr many ↦ rw many (record {
          own = rw (e, load-set key p (suc p.poll_errors) s) (gives_up early (ground arith));
          others = λ other ne. load-set_other key other p (suc p.poll_errors) s ne;
        })
      ]

      answered :
          is_timed_out w.now p ≡ false
          → (t : Option A2aTask) → (let x = poll_answer codec w key p s t in Calls w key s x.0 x.1)
      answered early none = failed_poll early
      answered early (some t) = elim (Bool-cases (w.terminal t.state)) [
        | inl over ↦ rw over (record {
          own = rw (e, load-delete codec w.api key (set_poll_errors key p 0 s)) (finishes early);
          others = λ other ne.
              load-delete_other codec w.api key (set_poll_errors key p 0 s) other ne
              ∙ load-set_other key other p 0 s ne;
        })
        | inr open_ ↦ rw open_ (record {
          own = rw (e, load-set key p 0 s) (waits early);
          others = λ other ne. load-set_other key other p 0 s ne;
        })
      ]
