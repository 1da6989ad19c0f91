-- ===== src/ThreadPool/Fifo.antt =====
-- threadpool/include/threadpool.h: the order in which requests are accepted and taken.
use mathlib.Core.Option.{some-injective, none-ne-some}
use my_web_server_cmake.Prelude.{
  ℕ, zero, suc, ◌+◌, ◌-◌, ◌≤◌, ◌<◌, ◌≡◌, arith, refl, ◌∙◌, ap, sym, subst, true, false, Option,
  none, some, [], ◌∷◌, ◌++◌, length, length-append, append_assoc, append-nil, pos, List-cases,
  Bool-cases, inl, inr,
}
use my_web_server_cmake.ThreadPool.{
  ThreadPool, threadpool, start_workers, enqueue, take_request, shut_down,
}
use my_web_server_cmake.ThreadPool.Threads.{
  System, Step, refuses, enqueues, posts, goes_on, ends, passes_wait, takes, finds_none, finishes,
  shuts_down, Reach, here, next, started,
}

pub record Inv (max workers : ℕ) (s : System) : Type 0 where
  pub counted : length s.pool.m_workqueue ≡ s.pool.m_queuesem + s.tickets + s.unposted
  pub bounded : length s.pool.m_workqueue ≤ max
  pub max_kept : s.pool.m_max_request ≡ max
  pub in_order : s.taken ++ s.pool.m_workqueue ≡ s.accepted
  pub staffed : s.at_head + s.waiting + s.tickets + length s.busy + s.gone ≡ workers

-- What the locked part of append does.
enqueue-room :
    (request : Option ℕ) (p q : ThreadPool)
    → enqueue request p ≡ (true, q)
    → (length p.m_workqueue < p.m_max_request)
      × (q ≡ record p { m_workqueue = p.m_workqueue ++ request ∷ [] })
unfolding enqueue
enqueue-room request p q e = ground arith

enqueue-full : (request : Option ℕ) (p q : ThreadPool) → enqueue request p ≡ (false, q) → q ≡ p
unfolding enqueue
enqueue-full request p q e = ground arith

take_request-cons :
    (p q : ThreadPool) (request : Option ℕ)
    → take_request p ≡ some (request, q)
    → (p.m_workqueue ≡ request ∷ q.m_workqueue)
      × (q.m_queuesem ≡ p.m_queuesem)
      × (q.m_max_request ≡ p.m_max_request)
unfolding take_request
take_request-cons p q request e = ground arith

take_request-nil : (p : ThreadPool) → take_request p ≡ none → p.m_workqueue ≡ []
unfolding take_request
take_request-nil p e = ground arith

module _ (max workers : ℕ) where
  enqueues-Inv :
      (request : Option ℕ) (p : ThreadPool) (s : System)
      → enqueue request s.pool ≡ (true, p)
      → Inv max workers s
      → Inv max workers
          (record s { pool = p; unposted = s.unposted + 1; accepted = s.accepted ++ request ∷ [] })
  enqueues-Inv request p s e v =
      let (room, q) = enqueue-room request s.pool p e in
      let more = length-append s.pool.m_workqueue (request ∷ []) in
      subst
        (λ r.
          Inv max workers (record s {
            pool = r;
            unposted = s.unposted + 1;
            accepted = s.accepted ++ request ∷ [];
          }))
        (sym q)
        (record {
          counted = omega (arith, more, v.counted);
          bounded = omega (arith, more, v.max_kept, room);
          max_kept = v.max_kept;
          in_order =
              sym (append_assoc s.taken s.pool.m_workqueue (request ∷ []))
              ∙ ap (λ l. l ++ request ∷ []) v.in_order;
          staffed = v.staffed;
        })

  takes-Inv :
      (request : Option ℕ) (p : ThreadPool) (s : System)
      → 0 < s.tickets
      → take_request s.pool ≡ some (request, p)
      → Inv max workers s
      → Inv max workers (record s {
        pool = p;
        tickets = s.tickets - 1;
        busy = request ∷ s.busy;
        taken = s.taken ++ request ∷ [];
      })
  takes-Inv request p s lt e v =
      let (list, sem, kept) = take_request-cons s.pool p request e in
      record {
        counted = omega (arith, ap length list, v.counted, sem);
        bounded = omega (arith, ap length list, v.bounded);
        max_kept = kept ∙ v.max_kept;
        in_order =
            append_assoc s.taken (request ∷ []) p.m_workqueue
            ∙ ap (◌++◌ s.taken) (sym list)
            ∙ v.in_order;
        staffed = omega (arith, v.staffed);
      }

  Step-keeps : {s t : System} → Step s t → Inv max workers s → Inv max workers t
  unfolding shut_down
  Step-keeps {s} (refuses request p t h e) v =
      subst (Inv max workers)
        (sym (e ∙ ap (λ r. record s { pool = r }) (enqueue-full request s.pool p h))) v
  Step-keeps {s} (enqueues request p t h e) v =
      subst (Inv max workers) (sym e) (enqueues-Inv request p s h v)
  Step-keeps {s} (posts t h e) v = subst (Inv max workers) (sym e) (record {
    counted = omega (arith, v.counted);
    bounded = v.bounded;
    max_kept = v.max_kept;
    in_order = v.in_order;
    staffed = v.staffed;
  })
  Step-keeps {s} (goes_on t h f e) v = subst (Inv max workers) (sym e) (record {
    counted = v.counted;
    bounded = v.bounded;
    max_kept = v.max_kept;
    in_order = v.in_order;
    staffed = omega (arith, v.staffed);
  })
  Step-keeps {s} (ends t h f e) v = subst (Inv max workers) (sym e) (record {
    counted = v.counted;
    bounded = v.bounded;
    max_kept = v.max_kept;
    in_order = v.in_order;
    staffed = omega (arith, v.staffed);
  })
  Step-keeps {s} (passes_wait t h k e) v = subst (Inv max workers) (sym e) (record {
    counted = omega (arith, v.counted);
    bounded = v.bounded;
    max_kept = v.max_kept;
    in_order = v.in_order;
    staffed = omega (arith, v.staffed);
  })
  Step-keeps {s} (takes request p t h f e) v =
      subst (Inv max workers) (sym e) (takes-Inv request p s h f v)
  Step-keeps {s} (finds_none t h f e) v =
      absurd (omega (arith, v.counted, ap length (take_request-nil s.pool f)))
  Step-keeps {s} (finishes request before after t h e) v = subst (Inv max workers) (sym e) (record {
    counted = v.counted;
    bounded = v.bounded;
    max_kept = v.max_kept;
    in_order = v.in_order;
    staffed = omega (
      arith,
      v.staffed,
      ap length h,
      length-append before (request ∷ after),
      length-append before after,
    );
  })
  Step-keeps {s} (shuts_down t e) v = subst (Inv max workers) (sym e) (record {
    counted = v.counted;
    bounded = v.bounded;
    max_kept = v.max_kept;
    in_order = v.in_order;
    staffed = v.staffed;
  })

  Reach-Inv : {s t : System} → Inv max workers s → Reach s t → Inv max workers t
  Reach-Inv v here = v
  Reach-Inv v (next r st) = Step-keeps st (Reach-Inv v r)

abbrev fresh : (workers max : ℕ) → ThreadPool
fresh workers max = record {
  m_workqueue = [];
  m_queuesem = 0;
  m_max_request = max;
  m_threadnumber = workers;
  m_shotdown = false;
}

threadpool-started :
    (create detach : ℕ → ℕ) (workers max : ℕ) (p : ThreadPool)
    → threadpool create detach (pos workers) (pos max) ≡ some p
    → Inv max workers (started p)
unfolding threadpool
threadpool-started create detach zero max p e = absurd (none-ne-some _ e)
threadpool-started create detach (suc n) zero p e = absurd (none-ne-some _ e)
threadpool-started create detach (suc n) (suc m) p e =
    elim (Bool-cases (start_workers create detach (suc n) 0)) [
      | inl ok ↦
          subst (λ q. Inv (suc m) (suc n) (started q))
            (some-injective (fresh (suc n) (suc m)) p (sym (simp (threadpool, ok)) ∙ e))
            (record {
              counted = omega arith;
              bounded = omega arith;
              max_kept = refl;
              in_order = refl;
              staffed = omega arith;
            })
      | inr bad ↦ absurd (none-ne-some _ (sym (simp (threadpool, bad)) ∙ e))
    ]

-- Requests are served in order. From the constructor, after any steps of any number of threads: the
-- requests that workers have taken, followed by those in the queue, are just the requests that append
-- accepted, in the order in which it accepted them. The queue is no longer than `max_request`, and
-- every worker is accounted for.
pub threadpool-in_order :
    (create detach : ℕ → ℕ) (workers max : ℕ) (p : ThreadPool) (s : System)
    → threadpool create detach (pos workers) (pos max) ≡ some p
    → Reach (started p) s
    → (s.taken ++ s.pool.m_workqueue ≡ s.accepted)
      × (length s.pool.m_workqueue ≤ max)
      × (s.at_head + s.waiting + s.tickets + length s.busy + s.gone ≡ workers)
threadpool-in_order create detach workers max p s e r =
    let v = Reach-Inv max workers (threadpool-started create detach workers max p e) r in
    (v.in_order, v.bounded, v.staffed)

-- A worker that has passed `m_queuesem.wait()` always finds a request, so that the test for an empty
-- queue behind it never holds.
pub threadpool-take_request :
    (create detach : ℕ → ℕ) (workers max : ℕ) (p : ThreadPool) (s : System)
    → threadpool create detach (pos workers) (pos max) ≡ some p
    → Reach (started p) s
    → 0 < s.tickets
    → (request : Option ℕ) × (q : ThreadPool) × (take_request s.pool ≡ some (request, q))
unfolding take_request
threadpool-take_request create detach workers max p s e r lt =
    let v = Reach-Inv max workers (threadpool-started create detach workers max p e) r in
    elim (List-cases s.pool.m_workqueue) [
      | inl h ↦ absurd (omega (arith, ap length h, v.counted))
      | inr (request, rest, h) ↦
          (request, record s.pool { m_workqueue = rest }, simp (take_request, h))
    ]

-- No request is forgotten. When no thread is between append and its post, no worker between its wait
-- and the queue, and the semaphore is 0, so that workers can only wait, every request that was
-- accepted has been taken.
pub threadpool-all_taken :
    (create detach : ℕ → ℕ) (workers max : ℕ) (p : ThreadPool) (s : System)
    → threadpool create detach (pos workers) (pos max) ≡ some p
    → Reach (started p) s
    → s.pool.m_queuesem + s.tickets + s.unposted ≡ 0
    → s.taken ≡ s.accepted
threadpool-all_taken create detach workers max p s e r zero_left =
    let v = Reach-Inv max workers (threadpool-started create detach workers max p e) r in
    elim (List-cases s.pool.m_workqueue) [
      | inl h ↦ sym (append-nil s.taken) ∙ ap (◌++◌ s.taken) (sym h) ∙ v.in_order
      | inr (request, rest, h) ↦ absurd (omega (arith, ap length h, v.counted))
    ]
