-- ===== src/Daemon/Session/Buffers.antt =====
-- The buffer map of a session: mapped, found, taken off and drained.
use android_hardware_samsung.Common.{
  ℕ, zero, suc, ◌≤◌, ◌<◌, ◌≡◌, ◌≢◌, ◌⊎◌, inl, inr, true, false, Option, some, none, [], ◌∷◌, map,
  length, ◌==◌, if◌then◌else◌, Option-cases, ==_refl, refl, ap, ◌∙◌, arith,
}
use android_hardware_samsung.Daemon.Session.{
  Wsm, BufferMap, Session, find, insert, erase, add_bulk_buff, remove_bulk_buff, pop_first,
  pop_bulk_buff, pop_all, clean_session_buffers,
}

-- The handles ascend strictly, all of them from `low` on.
abbrev pub IsAscending : ℕ → BufferMap → Type 0
IsAscending low [] = Unit {0}
IsAscending low (w ∷ m) = (low ≤ w.handle) × IsAscending (suc w.handle) m

IsAscending-weaken : (a b : ℕ) (m : BufferMap) → a ≤ b → IsAscending b m → IsAscending a m
IsAscending-weaken a b [] l h = tt
IsAscending-weaken a b (w ∷ m) l h = (omega arith, h.1)

find_below : (h low : ℕ) (m : BufferMap) → h < low → IsAscending low m → find h m ≡ none
unfolding find
find_below h low [] l a = refl
find_below h low (w ∷ m) l a = ground (arith, find_below h (suc w.handle) m)

find-insert :
    (h : ℕ) (w : Wsm) (m : BufferMap)
    → find w.handle m ≡ none
    → find h (insert w m) ≡ (if w.handle == h then some w else find h m)
unfolding find insert
find-insert h w [] f = refl
find-insert h w (v ∷ m) f = ground (arith, find-insert h w m)

insert-IsAscending :
    (w : Wsm) (low : ℕ) (m : BufferMap)
    → find w.handle m ≡ none
    → low ≤ w.handle
    → IsAscending low m
    → IsAscending low (insert w m)
unfolding find insert
insert-IsAscending w low [] f l a = (l, tt)
insert-IsAscending w low (v ∷ m) f l a = ground (arith, insert-IsAscending w (suc v.handle) m)

erase-insert :
    (w : Wsm) (low : ℕ) (m : BufferMap)
    → find w.handle m ≡ none
    → IsAscending low m
    → erase w.handle (insert w m) ≡ m
unfolding find insert erase
erase-insert w low [] f a = ground arith
erase-insert w low (v ∷ m) f a = ground (arith, erase-insert w (suc v.handle) m)

find-erase :
    (h k low : ℕ) (m : BufferMap)
    → IsAscending low m
    → find k (erase h m) ≡ (if h == k then none else find k m)
unfolding find erase
find-erase h k low [] a = ground arith
find-erase h k low (w ∷ m) a =
    ground (arith, find-erase h k (suc w.handle) m, find_below k (suc w.handle) m)

erase-IsAscending : (h low : ℕ) (m : BufferMap) → IsAscending low m → IsAscending low (erase h m)
unfolding erase
erase-IsAscending h low [] a = tt
erase-IsAscending h low (w ∷ m) a =
    ground (arith, erase-IsAscending h (suc w.handle) m, IsAscending-weaken low (suc w.handle) m)

pop_first_lem : (w : Wsm) (m : BufferMap) → pop_first (w ∷ m) ≡ (some w, m)
unfolding pop_first erase
pop_first_lem w m = ground arith

pop_all-map :
    (m : BufferMap) (fuel : ℕ) (s : Session)
    → length m < fuel
    → pop_all fuel (record s { buffers = m }) ≡ some (map (λ (w : Wsm). w.handle) m)
unfolding pop_all pop_bulk_buff pop_first
pop_all-map m zero s h = elim h [ ]
pop_all-map [] (suc fuel) s h = refl
pop_all-map (w ∷ m) (suc fuel) s h = rw (erase_head w m) (rw (pop_all-map m fuel s (omega arith)))
  where
    erase_head : (w : Wsm) (m : BufferMap) → erase w.handle (w ∷ m) ≡ m
    erase_head w m = ap (λ (r : Option Wsm × BufferMap). r.1) (pop_first_lem w m)

-- The loop of `cleanSessionBuffers` ends, and it unlocks every buffer of the session, each once,
-- in the order of their handles.
pub clean_session_buffers_lem :
    (s : Session) → clean_session_buffers s ≡ some (map (λ (w : Wsm). w.handle) s.buffers)
unfolding clean_session_buffers
clean_session_buffers_lem s = pop_all-map s.buffers (suc (length s.buffers)) s (omega arith)

-- `addBulkBuff` of a buffer on a map in order: when its handle is mapped already it answers false
-- and changes nothing; otherwise it answers true, the map stays in order, the buffer is found
-- under its handle and every other handle as before, and `removeBulkBuff` of the handle answers
-- true and restores the session.
pub add_bulk_buff_lem :
    (w : Wsm) (s : Session)
    → IsAscending 0 s.buffers
    → ((add_bulk_buff (some w) s).0 ≡ false)
        × (find w.handle s.buffers ≢ none)
        × ((add_bulk_buff (some w) s).1 ≡ s)
      ⊎ ((add_bulk_buff (some w) s).0 ≡ true)
        × IsAscending 0 (add_bulk_buff (some w) s).1.buffers
        × ((h : ℕ)
            → find h (add_bulk_buff (some w) s).1.buffers
              ≡ (if w.handle == h then some w else find h s.buffers))
        × (remove_bulk_buff w.handle (add_bulk_buff (some w) s).1 ≡ (true, s))
unfolding add_bulk_buff remove_bulk_buff
add_bulk_buff_lem w s a = elim (Option-cases (find w.handle s.buffers)) [
  | inr (old, e) ↦ inl (rw e, λ f. cc, rw e)
  | inl new ↦ inr (
    rw new,
    rw new (insert-IsAscending w 0 s.buffers new (omega arith) a),
    λ h. rw new (find-insert h w s.buffers new),
    rw new (
        rw (found new)
          (ap (λ m. (true, record s { buffers = m })) (erase-insert w 0 s.buffers new a))),
  )
]
  where
    found : find w.handle s.buffers ≡ none → find w.handle (insert w s.buffers) ≡ some w
    found new = find-insert w.handle w s.buffers new ∙ rw (==_refl w.handle)
