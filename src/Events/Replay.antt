-- ===== src/Events/Replay.antt =====
-- The replay buffer: its bounds, the numbers of its envelopes, and what a reconnecting reader gets.
use requestinspector_relay.Base.{
  ℕ, zero, suc, ◌+◌, ◌-◌, ◌%◌, ◌^◌, ◌≤◌, ◌<◌, ◌≡◌, ◌⊎◌, refl, sym, ◌∙◌, ap, List, [], ◌∷◌, ◌++◌,
  Option, none, some, ◌||◌, ltb, leb, ◌&&◌, if◌then◌else◌, str_eq, eq_iff, length, drop, arith,
  Bool-cases, inl, inr, format_uint, format_uint-injective, format_uint-ne-nil, length-append,
  subst,
}
use requestinspector_relay.Events.{
  Envelope, BusLimits, QueuedEnvelope, Bus, trim, envelopes, after_from, replay_after, last_id,
  publish, envelope_size, subscribe_with_snapshot, new_bus,
}

module _ {Data : Type 0} where
  abbrev pub total_size : List (QueuedEnvelope Data) → ℕ
  total_size [] = 0
  total_size (q ∷ replay) = q.size + total_size replay

  pub total_size-append :
      (xs ys : List (QueuedEnvelope Data)) → total_size (xs ++ ys) ≡ total_size xs + total_size ys
  total_size-append [] ys = omega arith
  total_size-append (q ∷ xs) ys = omega (arith, total_size-append xs ys)

  -- The envelopes are numbered without a gap, the first one by `lo`.
  abbrev pub IsNumbered : ℕ → List (QueuedEnvelope Data) → Type 0
  IsNumbered lo [] = Unit
  IsNumbered lo (q ∷ replay) = (q.envelope.id ≡ format_uint lo) × IsNumbered (suc lo) replay

  -- Trimming drops a front part of the buffer, keeps the sum of the sizes, and ends within both
  -- limits.
  trim_lem :
      (l : BusLimits) (replay : List (QueuedEnvelope Data)) (lo : ℕ)
      → IsNumbered lo replay
      → (total_size (trim l replay (total_size replay)).0 ≡ (trim l replay (total_size replay)).1)
        × (length (trim l replay (total_size replay)).0 ≤ l.replay_count)
        × ((trim l replay (total_size replay)).1 ≤ l.replay_bytes)
        × ((k : ℕ) × IsNumbered (lo + k) (trim l replay (total_size replay)).0
            × (k + length (trim l replay (total_size replay)).0 ≡ length replay))
  unfolding trim
  trim_lem l [] lo n = (refl, omega arith, omega arith, (0, tt, omega arith))
  trim_lem l (q ∷ replay) lo n =
      elim (Bool-cases (
        ltb l.replay_count (length (q ∷ replay)) || ltb l.replay_bytes (total_size (q ∷ replay)))) [
          | inr fits ↦
              rw (fits, trim)
                (
                  refl,
                  ground arith,
                  ground arith,
                  (0, subst (λ k. IsNumbered k (q ∷ replay)) (omega arith) n, omega arith),
                )
          | inl over ↦
              let less : total_size (q ∷ replay) - q.size ≡ total_size replay = omega arith in
              let r = trim_lem l replay (suc lo) n.1 in
              rw (over, trim, less)
                (
                  r.0,
                  r.1,
                  r.2,
                  (
                    suc r.3.0,
                    subst (λ m. IsNumbered m (trim l replay (total_size replay)).0)
                        (let e : suc lo + r.3.0 ≡ lo + suc r.3.0 = omega arith in e) r.3.1,
                    omega arith,
                  ),
                )
        ]

  -- The buffer's invariant: within its limits, its size the sum of the sizes, and its envelopes the
  -- last ones published, in order.
  pub record IsReplayable (bus : Bus Data) : Type 0 where
    pub count : length bus.replay ≤ bus.limits.replay_count
    pub bytes : bus.replay_size ≤ bus.limits.replay_bytes
    pub sized : bus.replay_size ≡ total_size bus.replay
    pub oldest : ℕ
    pub numbered : IsNumbered oldest bus.replay
    pub latest : oldest + length bus.replay ≡ bus.next_id + 1

  IsNumbered-append :
      (lo : ℕ) (xs : List (QueuedEnvelope Data)) (q : QueuedEnvelope Data)
      → IsNumbered lo xs
      → q.envelope.id ≡ format_uint (lo + length xs)
      → IsNumbered lo (xs ++ q ∷ [])
  IsNumbered-append lo [] q n e = (e ∙ ap format_uint (let z : lo + 0 ≡ lo = omega arith in z), tt)
  IsNumbered-append lo (x ∷ xs) q n e = (
    n.0,
    IsNumbered-append (suc lo) xs q n.1
        (e ∙ ap format_uint (let z : lo + suc (length xs) ≡ suc lo + length xs = omega arith in z)),
  )

  new_bus-IsReplayable : (limits : BusLimits) → IsReplayable (new_bus limits)
  unfolding new_bus
  new_bus-IsReplayable limits = record {
    count = omega arith;
    bytes = omega arith;
    sized = refl;
    oldest = 1;
    numbered = tt;
    latest = refl;
  }

  module _ (marshal : Envelope Data → Option ℕ) (now : ℕ) where
    -- Until the 64-bit counter would wrap, publishing keeps the buffer within both limits, its size
    -- the sum of its envelopes' sizes, and its envelopes numbered without a gap up to the last one.
    pub publish-IsReplayable :
        (bus : Bus Data) (envelope : Envelope Data)
        → bus.next_id + 1 < 2 ^ 64
        → IsReplayable bus
        → IsReplayable (publish marshal now bus envelope).0
    unfolding publish
    publish-IsReplayable bus envelope small v =
        let id : ℕ = (bus.next_id + 1) % 2 ^ 64 in
        let same : id ≡ bus.next_id + 1 = omega arith in
        let sent : Envelope Data = record envelope {
          schema_version = 1;
          id = format_uint id;
          timestamp = now;
        } in
        let queued : QueuedEnvelope Data = record {
          envelope = sent;
          size = envelope_size marshal now sent;
        } in
        let grown : List (QueuedEnvelope Data) = bus.replay ++ queued ∷ [] in
        let sum : bus.replay_size + queued.size ≡ total_size grown =
          omega (arith, total_size-append bus.replay (queued ∷ []), v.sized) in
        let numbered = IsNumbered-append v.oldest bus.replay queued v.numbered (
          ap format_uint
            (let z : id ≡ v.oldest + length bus.replay = omega (arith, v.latest) in z)) in
        let r = trim_lem bus.limits grown v.oldest numbered in
        rw (sum, publish)
          (record {
            count = r.1;
            bytes = r.2;
            sized = sym r.0;
            oldest = v.oldest + r.3.0;
            numbered = r.3.1;
            latest = omega (arith, r.3.2, v.latest, length-append bus.replay (queued ∷ []));
          })

  -- The numbered envelopes after a number that the buffer holds are the later ones, all of them.
  after_from-held :
      (lo k : ℕ) (replay : List (QueuedEnvelope Data))
      → IsNumbered lo replay
      → k < length replay
      → after_from (format_uint (lo + k)) replay ≡ some (envelopes (drop (suc k) replay))
  unfolding after_from
  after_from-held lo k [] n h = absurd (omega arith)
  after_from-held lo zero (q ∷ replay) n h = ground (
    arith,
    eq_iff q.envelope.id (format_uint (lo + 0)),
    n.0 ∙ ap format_uint (let z : lo ≡ lo + 0 = omega arith in z),
  )
  after_from-held lo (suc k) (q ∷ replay) n h = ground (
    arith,
    eq_iff q.envelope.id (format_uint (lo + suc k)),
    format_uint-injective lo (lo + suc k),
    n.0,
    after_from-held (suc lo) k replay n.1,
    ap (λ m. after_from (format_uint m) replay)
        (let z : lo + suc k ≡ suc lo + k = omega arith in z),
  )

  -- A number that the buffer no longer holds, or does not hold yet, leads to a reset.
  after_from-missing :
      (lo n : ℕ) (replay : List (QueuedEnvelope Data))
      → IsNumbered lo replay
      → (n < lo) ⊎ (lo + length replay ≤ n)
      → after_from (format_uint n) replay ≡ none
  unfolding after_from
  after_from-missing lo n [] h m = refl
  after_from-missing lo n (q ∷ replay) h m = ground (
    arith,
    eq_iff q.envelope.id (format_uint n),
    format_uint-injective lo n,
    h.0,
    after_from-missing (suc lo) n replay h.1,
  )

  -- With the buffer's invariant, a reader that comes back with the number of an envelope gets exactly
  -- the later ones where the buffer holds that envelope, and is told to reset everywhere else.
  pub replay_after_complete :
      (bus : Bus Data) (v : IsReplayable bus) (n : ℕ)
      → replay_after bus (format_uint n) ≡ (
          if leb v.oldest n && leb n bus.next_id
          then some (envelopes (drop (n + 1 - v.oldest) bus.replay))
          else none)
  unfolding replay_after
  replay_after_complete bus v n = elim (Bool-cases (leb v.oldest n && leb n bus.next_id)) [
    | inl held ↦
        let k : ℕ = n - v.oldest in
        let at : v.oldest + k ≡ n = ground arith in
        let up : suc k ≡ n + 1 - v.oldest = ground arith in
        let found = after_from-held v.oldest k bus.replay v.numbered (ground (arith, v.latest)) in
        ground (
          arith,
          eq_iff (format_uint n) "",
          format_uint-ne-nil n,
          subst
              (λ m.
                after_from (format_uint m) bus.replay ≡ some (envelopes (drop (suc k) bus.replay)))
              at found,
          ap (λ m. envelopes (drop m bus.replay)) up,
        )
    | inr missing ↦ ground (
      arith,
      eq_iff (format_uint n) "",
      format_uint-ne-nil n,
      after_from-missing v.oldest n bus.replay v.numbered (ground (arith, v.latest)),
    )
  ]

  last_id-format_uint :
      (lo : ℕ) (q : QueuedEnvelope Data) (replay : List (QueuedEnvelope Data))
      → IsNumbered lo (q ∷ replay)
      → last_id (q ∷ replay) ≡ format_uint (lo + length replay)
  unfolding last_id
  last_id-format_uint lo q [] n = n.0 ∙ ap format_uint (let z : lo ≡ lo + 0 = omega arith in z)
  last_id-format_uint lo q (p ∷ replay) n =
      last_id-format_uint (suc lo) p replay n.1
      ∙ ap format_uint
          (let z : suc lo + length replay ≡ lo + suc (length replay) = omega arith in z)

  drop-length : (replay : List (QueuedEnvelope Data)) → drop (length replay) replay ≡ []
  drop-length [] = refl
  drop-length (q ∷ replay) = drop-length replay

  at_end :
      (lo : ℕ) (replay : List (QueuedEnvelope Data))
      → IsNumbered lo replay
      → (if str_eq (last_id replay) ""
          then some (envelopes replay)
          else after_from (last_id replay) replay)
        ≡ some []
  unfolding last_id envelopes
  at_end lo [] n = refl
  at_end lo (q ∷ replay) n =
      let last = last_id-format_uint lo q replay n in
      rw last (
        ground (
          arith,
          eq_iff (format_uint (lo + length replay)) "",
          format_uint-ne-nil (lo + length replay),
          after_from-held lo (length replay) (q ∷ replay) n (omega arith),
          ap envelopes (drop-length replay),
        ))

  -- A subscription with a snapshot starts at the buffer's end: with the buffer's invariant it
  -- replays nothing and asks for no reset, its cursor is the identifier of the last envelope of the
  -- buffer, and it carries the snapshot.
  subscribe_with_snapshot-current :
      {Snapshot : Type 0} (bus : Bus Data) (snapshot : Unit {0} → Snapshot) (address : ℕ)
      → IsReplayable bus
      → ((subscribe_with_snapshot bus snapshot address).1 ≡ some [])
        × ((subscribe_with_snapshot bus snapshot address).2 ≡ snapshot tt)
        × ((subscribe_with_snapshot bus snapshot address).3 ≡ last_id bus.replay)
  unfolding subscribe_with_snapshot replay_after
  subscribe_with_snapshot-current bus snapshot address v =
      (at_end v.oldest bus.replay v.numbered, refl, refl)
