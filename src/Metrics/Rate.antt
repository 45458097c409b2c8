-- ===== src/Metrics/Rate.antt =====
-- How often the broker is asked.
use pix_tools.Base.{
  ℕ, ◌+◌, ◌*◌, ◌-◌, ◌≤◌, ◌≡◌, refl, String, false, List, [], ◌∷◌, ◌++◌, All, insert, length,
  length-append, ltb, arith, Bool-cases, Option-cases, inl, inr,
}
use pix_tools.Metrics.{
  Gauges, Broker, interval, queue_names, read_queues, read_broker, refresh_queue_depth_metrics,
}

-- Visits of the middleware, which never forces a refresh: the time of each and the broker then.
abbrev pub Visits : Type 0
Visits = List (ℕ × Broker)

abbrev pub scrapes : Visits → Gauges → Gauges
scrapes [] g = g
scrapes ((now, broker) ∷ calls) g = scrapes calls (refresh_queue_depth_metrics false now broker g)

-- What reading the queues leaves alone.
record IsTimed (g g' : Gauges) : Type 0 where
  last : g'.last_refresh ≡ g.last_refresh
  opened : g'.connections ≡ g.connections

read_queues-IsTimed :
    (broker : Broker) (names : List String) (g : Gauges) → IsTimed g (read_queues broker names g)
unfolding read_queues
read_queues-IsTimed broker [] g = record { last = refl; opened = refl }
read_queues-IsTimed broker (n ∷ ns) g = elim (Option-cases (broker.declared n)) [
  | inl missing ↦ record { last = ground (arith, missing); opened = ground (arith, missing) }
  | inr ((depth, consumers), there) ↦
      let rest =
        read_queues-IsTimed broker ns (record g {
          depth = insert n depth g.depth;
          consumers = insert n consumers g.consumers;
        }) in
      record {
        last = ground (arith, there, rest.last);
        opened = ground (arith, there, rest.opened);
      }
]

read_broker-IsTimed : (broker : Broker) (g : Gauges) → IsTimed g (read_broker broker g)
read_broker-IsTimed broker g = elim (Bool-cases broker.reachable) [
  | inl yes_ ↦
      let rest = read_queues-IsTimed broker queue_names g in
      record { last = ground (arith, yes_, rest.last); opened = ground (arith, yes_, rest.opened) }
  | inr no_ ↦ record { last = ground (arith, no_); opened = ground (arith, no_) }
]

-- One call opens no connection, or the clock has moved on by the interval.
refresh_step :
    (limit now : ℕ) (broker : Broker) (g : Gauges)
    → now ≤ limit
    → g.last_refresh ≤ limit
    → let g' = refresh_queue_depth_metrics false now broker g in
      (length g'.connections * interval + g.last_refresh
        ≤ length g.connections * interval + g'.last_refresh)
      × (g'.last_refresh ≤ limit)
unfolding refresh_queue_depth_metrics
refresh_step limit now broker g h k = elim (Bool-cases (ltb (now - g.last_refresh) interval)) [
  | inl early ↦ (ground (arith, early), ground (arith, early))
  | inr late ↦
      let opened = g.connections ++ now ∷ [] in
      let g1 : Gauges = record g { last_refresh = now; connections = opened } in
      let read = read_broker-IsTimed broker g1 in
      let more = length-append g.connections (now ∷ []) in
      (ground (arith, late, read.last, read.opened, more), ground (arith, late, read.last))
]

-- However often the metrics are scraped up to a time `limit`, and whatever the broker answers: from a
-- state whose last refresh is not later, each connection that is opened takes five seconds of the
-- time that has passed since that refresh.
pub scrapes-rate :
    (limit : ℕ) (calls : Visits) (g : Gauges)
    → All (λ c. c.0 ≤ limit) calls
    → g.last_refresh ≤ limit
    → length (scrapes calls g).connections * 5000000000 + g.last_refresh
      ≤ length g.connections * 5000000000 + limit
scrapes-rate limit [] g h k = omega (arith, k)
scrapes-rate limit ((now, broker) ∷ calls) g (h, hs) k =
    let (step, k') = refresh_step limit now broker g h k in
    let rest = scrapes-rate limit calls (refresh_queue_depth_metrics false now broker g) hs k' in
    omega (arith, step, rest)
