-- ===== src/MruSet/Recent.antt =====
-- What the set of src/mruset.h holds: the newest elements, each once.
use montecoin.Prelude.{
  ℕ, ◌-◌, ◌≤◌, ◌<◌, ◌≡◌, ◌≢◌, refl, sym, ◌∙◌, suc, not, ◌&&◌, true, false, List, [], ◌∷◌, ◌++◌, Key,
  arith, length, drop, length-append, ltb, ◌==◌, if◌then◌else◌, Bool-cases, inl, inr,
}
use montecoin.Prelude.OrderedSet
use montecoin.Prelude.OrderedSet.{contains, contains-insert, contains-erase, contains-append}
use montecoin.MruSet.{MruSet, insert, max_size, pop_front, trim}

module _ {T : Type 0} ⦃o : Key T⦄ where
  abbrev pub IsDistinct : List T → Type 0
  IsDistinct [] = Unit {0}
  IsDistinct (x ∷ queue) = (contains x queue ≡ false) × IsDistinct queue

  -- The set and the queue hold the same elements, each once, and at most the limit, if there is one.
  pub record IsValid (m : MruSet T) : Type 0 where
    pub same : (x : T) → contains x m.set ≡ contains x m.queue
    pub distinct : IsDistinct m.queue
    pub bounded : m.n_max_size ≢ 0 → length m.queue ≤ m.n_max_size

  append-IsDistinct :
      (x : T) (queue : List T)
      → contains x queue ≡ false
      → IsDistinct queue
      → IsDistinct (queue ++ (x ∷ []))
  unfolding contains
  append-IsDistinct x [] h d = (refl, tt)
  append-IsDistinct x (y ∷ queue) h d = ground (
    arith,
    append-IsDistinct x queue,
    contains-append y queue (x ∷ []),
    o.beq_iff x y,
    o.beq_iff y x,
  )

  beq_key : (x y : T) (queue : List T) → o.beq x y ≡ true → contains x queue ≡ contains y queue
  beq_key x y queue e = rw ((o.beq_iff x y).0 e) refl

  -- Dropping the oldest element from both sides keeps them the same.
  same-erase :
      (x y : T) (set queue : List T)
      → contains x queue ≡ false
      → contains y set ≡ contains y (x ∷ queue)
      → contains y (OrderedSet.erase x set) ≡ contains y queue
  unfolding contains
  same-erase x y set queue d h = elim (Bool-cases (o.beq x y)) [
    | inl e ↦ ground (arith, contains-erase x y set, beq_key x y queue e)
    | inr e ↦ ground (arith, contains-erase x y set)
  ]

  same-pop_front :
      (set queue : List T)
      → ((y : T) → contains y set ≡ contains y queue)
      → IsDistinct queue
      → (y : T) → contains y (pop_front set queue).0 ≡ contains y (pop_front set queue).1
  unfolding pop_front
  same-pop_front set [] h d y = h y
  same-pop_front set (x ∷ queue) h d y = same-erase x y set queue d.0 (h y)

  same-trim :
      (s : ℕ) (set queue : List T)
      → ((y : T) → contains y set ≡ contains y queue)
      → IsDistinct queue
      → let r = trim s set queue in
        ((y : T) → contains y r.0 ≡ contains y r.1) × IsDistinct r.1 × (length r.1 ≤ s)
  unfolding trim
  same-trim s set [] h d = (h, d, omega arith)
  same-trim s set (x ∷ queue) h d = elim (Bool-cases (ltb s (length (x ∷ queue)))) [
    | inl e ↦
        rw (e, trim)
          (same-trim s (OrderedSet.erase x set) queue (λ y. same-erase x y set queue d.0 (h y)) d.1)
    | inr e ↦ rw (e, trim) (h, d, ground arith)
  ]

  -- The newest elements of a queue, at most `n` of them; no limit if `n` is 0.
  abbrev pub newest : ℕ → List T → List T
  newest n queue = if n == 0 then queue else drop (length queue - n) queue

  drop_none : (s : ℕ) (queue : List T) → length queue ≤ s → drop (length queue - s) queue ≡ queue
  drop_none s queue h = let e : length queue - s ≡ 0 = omega arith in rw e

  drop_one :
      (s : ℕ) (x : T) (queue : List T)
      → s < length (x ∷ queue)
      → drop (length (x ∷ queue) - s) (x ∷ queue) ≡ drop (length queue - s) queue
  drop_one s x queue h =
      let e : length (x ∷ queue) - s ≡ suc (length queue - s) = omega arith in rw e

  queue-trim : (s : ℕ) (set queue : List T) → (trim s set queue).1 ≡ drop (length queue - s) queue
  unfolding trim
  queue-trim s set [] = sym (drop_none s [] (omega arith))
  queue-trim s set (x ∷ queue) = elim (Bool-cases (ltb s (length (x ∷ queue)))) [
    | inl e ↦
        rw (e, trim)
          (queue-trim s (OrderedSet.erase x set) queue ∙ sym (drop_one s x queue (ground arith)))
    | inr e ↦ rw (e, trim) (sym (drop_none s (x ∷ queue) (ground arith)))
  ]

  -- Setting the limit keeps the set well formed.
  max_size-IsValid : (s : ℕ) (m : MruSet T) → IsValid m → IsValid (max_size s m)
  unfolding max_size
  max_size-IsValid s m v = elim (Bool-cases (s == 0)) [
    | inl e ↦
        rw (e, max_size)
          (record {
            same = v.same;
            distinct = v.distinct;
            bounded = λ h. absurd (h (ground arith));
          })
    | inr e ↦
        rw (e, max_size)
          (let t = same-trim s m.set m.queue v.same v.distinct in
            record { same = t.0; distinct = t.1; bounded = λ h. t.2 })
  ]

  insert_new-same :
      (x y : T) (set queue : List T)
      → contains y set ≡ contains y queue
      → contains y (OrderedSet.insert x set) ≡ contains y (queue ++ (x ∷ []))
  unfolding contains
  insert_new-same x y set queue h =
      ground (arith, contains-insert x y set, contains-append y queue (x ∷ []))

  -- Room is made by the oldest element: what `insert` builds when the queue is full.
  full-IsValid :
      (x : T) (set queue : List T) (n : ℕ)
      → contains x queue ≡ false
      → ((y : T) → contains y set ≡ contains y queue)
      → IsDistinct queue
      → length queue ≡ n
      → n ≢ 0
      → let r = pop_front (OrderedSet.insert x set) queue in
        IsValid (record { set = r.0; queue = r.1 ++ (x ∷ []); n_max_size = n })
  unfolding pop_front
  full-IsValid x set [] n new h d e ne = absurd (ne (sym e))
  full-IsValid x set (z ∷ queue) n new h d e ne =
      let d' : IsDistinct (z ∷ queue ++ (x ∷ [])) = append-IsDistinct x (z ∷ queue) new d in
      record {
        same = λ y.
            same-erase z y (OrderedSet.insert x set) (queue ++ (x ∷ [])) d'.0
              (insert_new-same x y set (z ∷ queue) (h y));
        distinct = d'.1;
        bounded = λ _. omega (arith, length-append queue (x ∷ []));
      }

  -- An insertion keeps the set well formed.
  pub insert-IsValid : (x : T) (m : MruSet T) → IsValid m → IsValid (insert x m).0
  unfolding insert
  insert-IsValid x m v = elim (Bool-cases (contains x m.set)) [
    | inl old ↦ rw (old, insert) v
    | inr new ↦
        let fresh : contains x m.queue ≡ false = sym (v.same x) ∙ new in
        elim (Bool-cases (not (m.n_max_size == 0) && length m.queue == m.n_max_size)) [
          | inl full ↦
              rw (new, full, insert)
                (full-IsValid x m.set m.queue m.n_max_size fresh v.same v.distinct (ground arith)
                  (ground arith))
          | inr room ↦
              rw (new, room, insert)
                (record {
                  same = λ y. insert_new-same x y m.set m.queue (v.same y);
                  distinct = append-IsDistinct x m.queue fresh v.distinct;
                  bounded =
                      λ ne. let le = v.bounded ne in ground (arith, length-append m.queue (x ∷ []));
                })
        ]
  ]

  newest_full :
      (x : T) (set queue : List T) (n : ℕ)
      → length queue ≡ n
      → n ≢ 0
      → (pop_front set queue).1 ++ (x ∷ []) ≡ newest n (queue ++ (x ∷ []))
  unfolding pop_front
  newest_full x set [] n e ne = absurd (ne (sym e))
  newest_full x set (z ∷ queue) n e ne =
      let e' : length (queue ++ (x ∷ [])) - n ≡ 0 = omega (arith, length-append queue (x ∷ [])) in
      let e'' : length (z ∷ queue ++ (x ∷ [])) - n ≡ 1 =
        omega (arith, length-append queue (x ∷ [])) in
      let b : (n == 0) ≡ false = ground arith in rw (b, e'')

  newest_room : (queue : List T) (n : ℕ) → (n ≢ 0 → length queue ≤ n) → newest n queue ≡ queue
  newest_room queue n h = elim (Bool-cases (n == 0)) [
    | inl e ↦ rw e
    | inr e ↦ rw e (drop_none n queue (h (λ z. ground arith)))
  ]

  -- The abstract view: an element that is new goes to the end of the sequence of elements, of which
  -- the newest are kept; one that is held already changes nothing. The flag says which it was.
  pub insert-queue :
      (x : T) (m : MruSet T)
      → IsValid m
      → ((insert x m).0.queue
          ≡ (if contains x m.queue then m.queue else newest m.n_max_size (m.queue ++ (x ∷ []))))
        × ((insert x m).1 ≡ not (contains x m.queue))
  unfolding insert
  insert-queue x m v = rw (← v.same x) (elim (Bool-cases (contains x m.set)) [
    | inl old ↦ rw (old, insert) (refl, refl)
    | inr new ↦ elim (Bool-cases (not (m.n_max_size == 0) && length m.queue == m.n_max_size)) [
      | inl full ↦
          rw (new, full, insert)
            (
              newest_full x (OrderedSet.insert x m.set) m.queue m.n_max_size (ground arith)
                  (ground arith),
              refl,
            )
      | inr room ↦
          rw (new, room, insert)
            (
              sym (
                  newest_room (m.queue ++ (x ∷ [])) m.n_max_size (λ ne.
                    let le = v.bounded ne in ground (arith, length-append m.queue (x ∷ [])))),
              refl,
            )
    ]
  ])

  -- Setting the limit keeps the newest elements.
  pub max_size-queue :
      (s : ℕ) (m : MruSet T)
      → ((max_size s m).queue ≡ newest s m.queue) × ((max_size s m).n_max_size ≡ s)
  unfolding max_size
  max_size-queue s m = elim (Bool-cases (s == 0)) [
    | inl e ↦ rw (e, max_size) (refl, refl)
    | inr e ↦ rw (e, max_size) (queue-trim s m.set m.queue, refl)
  ]
