-- ===== src/MruSet.antt =====
-- `mruset` of src/mruset.h: a set that forgets all but its most recent elements.
mod Recent
mod Tests
use montecoin.Prelude.{
  ℕ, ◌+◌, ◌-◌, Bool, true, false, not, ◌&&◌, List, [], ◌∷◌, ◌++◌, Key, length, ltb, ◌==◌,
  if◌then◌else◌,
}
use montecoin.Prelude.OrderedSet

pub record MruSet (T : Type 0) : Type 0 where
  pub set : List T
  pub queue : List T
  pub n_max_size : ℕ

module _ {T : Type 0} ⦃o : Key T⦄ where
  pub new : ℕ → MruSet T
  new n_max_size_in = record { set = []; queue = []; n_max_size = n_max_size_in }

  pub count : T → MruSet T → Bool
  count k m = OrderedSet.contains k m.set

  -- `set.erase(queue.front()); queue.pop_front();`, which the source calls on a nonempty queue.
  pop_front : List T → List T → List T × List T
  pop_front set [] = (set, [])
  pop_front set (x ∷ queue) = (OrderedSet.erase x set, queue)

  -- `insert`, with the `second` of the pair that the source returns.
  pub insert : T → MruSet T → MruSet T × Bool
  unfolding pop_front
  insert x m =
      if OrderedSet.contains x m.set
      then (m, false)
      else if not (m.n_max_size == 0) && length m.queue == m.n_max_size
      then (let (set', queue') = pop_front (OrderedSet.insert x m.set) m.queue in
          (record m { set = set'; queue = queue' ++ (x ∷ []) }, true))
      else (record m { set = OrderedSet.insert x m.set; queue = m.queue ++ (x ∷ []) }, true)

  -- `while (queue.size() > s)` drop the oldest element.
  trim : ℕ → List T → List T → List T × List T
  trim s set [] = (set, [])
  trim s set (x ∷ queue) = elim (ltb s (length (x ∷ queue))) [
    | true ↦ trim s (OrderedSet.erase x set) queue
    | false ↦ (set, x ∷ queue)
  ]

  -- The setter `max_size(s)`.
  pub max_size : ℕ → MruSet T → MruSet T
  max_size s m =
      let (set', queue') = (if s == 0 then (m.set, m.queue) else trim s m.set m.queue) in
      record { set = set'; queue = queue'; n_max_size = s }
