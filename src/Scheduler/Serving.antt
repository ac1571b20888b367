-- ===== src/Scheduler/Serving.antt =====
-- backend/scheduler.py: the end of a frame and the registration of a stream keep every waiting frame
-- served.
use omnitrack_ai_platform.Prelude.{
  ℕ, ◌-◌, ◌<◌, ◌≡◌, refl, subst, ◌≢◌, inl, inr, true, false, not, ◌&&◌, Option, none, some, [], ◌∷◌,
  ◌++◌, arith, ℕ_discrete, ltb, Bool-cases, Option-cases, is_some, length, update,
}
use omnitrack_ai_platform.Prelude.Dict.{lookup, lookup-insert}
use omnitrack_ai_platform.Scheduler.{Scheduler}
use omnitrack_ai_platform.Scheduler.{Channel, Flight}
use omnitrack_ai_platform.Scheduler.{enqueue}
use omnitrack_ai_platform.Scheduler.{Owner, finish, fresh_channel, register}
use omnitrack_ai_platform.Scheduler.Loads.{least_loaded-range}
use omnitrack_ai_platform.Scheduler.Service.{Service, Service-changed, mem-grow, mem-last}

module _ (p : Scheduler) (w : ℕ) (f : Flight) (lt : w < p.num_workers) (on : p.running w ≡ some f)
    (h : Service p) where
  landed-keeps :
      (v : ℕ) (g : Flight)
      → p.running v ≡ some g
      → g.channel ≢ f.channel
      → update p.running w none v ≡ some g
  landed-keeps v g r other = elim (ℕ_discrete w v) [
    | yes same ↦ absurd (other (ground (arith, subst (λ x. p.running x ≡ some f) same on)))
    | no differs ↦ ground arith
  ]

  landed-new : (v : ℕ) (g : Flight) → update p.running w none v ≡ some g → p.running v ≡ some g
  landed-new v g r = ground arith

  pub finish-Service : Service (finish p w f)
  unfolding finish enqueue
  finish-Service =
      elim (Bool-cases (
        not p.stopping
        && ltb 0 (length c.pending)
        && not c.enqueued
        && is_some (lookup f.stream p.channels))) [
          | inl e ↦ rw e (
              Service-changed p f.channel (record c { in_flight = false; enqueued = true })
                (update p.ready w (p.ready w ++ f.stream ∷ [])) (p.busy - 1)
                (update p.running w none) refl refl
                (λ s v _ m. ground (arith, mem-grow s f.stream (p.ready v) m)) landed-keeps
                (λ v g r. inl (landed-new v g r))
                (λ s e'. record {
                  served = λ _ _. inl (ground arith);
                  queued = λ _. (
                    w,
                    lt,
                    ground (
                      arith,
                      h.named s f.channel e',
                      h.flights w f on,
                      mem-last f.stream (p.ready w),
                    ),
                  );
                  flying = λ x. absurd (ground arith);
                })
                h)
          | inr e ↦ rw e (
              Service-changed p f.channel (record c { in_flight = false }) p.ready (p.busy - 1)
                (update p.running w none) refl refl (λ s v _ m. m) landed-keeps
                (λ v g r. inl (landed-new v g r))
                (λ s e'.
                  let old = h.serves s f.channel e' in
                  record {
                    served = λ n z. ground (arith, h.named s f.channel e', h.flights w f on);
                    queued = λ x. old.queued (ground arith);
                    flying = λ x. absurd (ground arith);
                  })
                h)
        ]
    where
      c : Channel
      c = p.objects f.channel

fresh-worker :
    (p : Scheduler) (s : ℕ) → 0 < p.num_workers → (fresh_channel p s).worker_index < p.num_workers
unfolding fresh_channel
fresh-worker p s pos = omega (arith, least_loaded-range p.load (p.num_workers - 1))

pub register-Service :
    (p : Scheduler) (s : ℕ) (owner : Option Owner)
    → 0 < p.num_workers
    → Service p
    → Service (register p s owner)
unfolding register fresh_channel
register-Service p s owner pos h = elim (Option-cases (lookup s p.channels)) [
  | inr (o, e) ↦ rw (e, register) h
  | inl e ↦
      rw (e, register)
        (record {
          workers = λ o. ground (arith, h.workers o, fresh-worker p s pos);
          named = λ t o x. ground (arith, lookup-insert t s p.next_object p.channels, h.named t o);
          flights = λ w f r. ground (arith, h.flights w f r);
          serves = λ t o x. elim (ℕ_discrete t s) [
            | yes same ↦ record {
              served = λ n _. absurd (ground (arith, lookup-insert t s p.next_object p.channels));
              queued = λ y. absurd (ground (arith, lookup-insert t s p.next_object p.channels));
              flying = λ y. absurd (ground (arith, lookup-insert t s p.next_object p.channels));
            }
            | no other ↦
                let x' : lookup t p.channels ≡ some o =
                  ground (arith, lookup-insert t s p.next_object p.channels) in
                let old = h.serves t o x' in
                let (_, below) = h.named t o x' in
                record {
                  served = λ n z. ground (arith, old.served (ground arith) z);
                  queued = λ y. old.queued (ground arith);
                  flying = λ y. old.flying (ground arith);
                }
          ];
        })
]
