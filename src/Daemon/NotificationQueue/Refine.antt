-- ===== src/Daemon/NotificationQueue/Refine.antt =====
-- The rings against the specification of Fifo.
use Prim.Native.Nat.{bit_and}
use android_hardware_samsung.Common.{
  ℕ, zero, suc, ◌+◌, ◌-◌, ◌%◌, ◌^◌, ◌≤◌, ◌<◌, ◌≡◌, refl, ap, ap₂, ◌∙◌, Option, some, none, List, [],
  ◌∷◌, ◌++◌, length, get_or, set, ltb, lt→ltb, false, length-set, get_or-set_self, get_or-set_ne,
  arith,
}
use native.Mathlib.Decide.{dec_lt}
use android_hardware_samsung.Daemon.NotificationQueue.{
  Notification, Ring, Queues, nq_num_elems, sub32, inc32, blank, put_ring, get_ring,
  put_notification, get_notification,
}
use android_hardware_samsung.Common.Mask.{bit_and-pow}
use android_hardware_samsung.Daemon.NotificationQueue.Fifo

-- A ring of 16 cells with at most 16 notifications in it.
pub record IsValid (q : Ring) : Type 0 where
  pub size : q.queue_size ≡ nq_num_elems
  pub room : length q.cells ≡ nq_num_elems
  pub write_word : q.write_cnt < 2 ^ 32
  pub read_word : q.read_cnt < 2 ^ 32
  pub filled : sub32 q.write_cnt q.read_cnt ≤ nq_num_elems

-- The `n` notifications from counter `r` on.
abbrev pub window : List Notification → ℕ → ℕ → List Notification
window cells r zero = []
window cells r (suc n) = get_or cells (r % 16) blank ∷ window cells (r + 1) n

abbrev pub contents : Ring → List Notification
contents q = window q.cells q.read_cnt (sub32 q.write_cnt q.read_cnt)

length-window : (cells : List Notification) (r n : ℕ) → length (window cells r n) ≡ n
length-window cells r zero = refl
length-window cells r (suc n) = ap suc (length-window cells (r + 1) n)

-- The window depends on the counter by its cell alone.
window_cong :
    (cells : List Notification) (r s n : ℕ) → r % 16 ≡ s % 16 → window cells r n ≡ window cells s n
window_cong cells r s zero h = refl
window_cong cells r s (suc n) h =
    ap₂ ◌∷◌ (ap (λ i. get_or cells i blank) h) (window_cong cells (r + 1) (s + 1) n (omega arith))

window_snoc :
    (cells : List Notification) (r n : ℕ)
    → window cells r (suc n) ≡ window cells r n ++ (get_or cells ((r + n) % 16) blank ∷ [])
window_snoc cells r zero = ap (λ i. get_or cells i blank ∷ []) (omega arith)
window_snoc cells r (suc n) =
    let q : (r + 1 + n) % 16 ≡ (r + suc n) % 16 = omega arith in
    ap (λ l. get_or cells (r % 16) blank ∷ l) (rw (← q) (window_snoc cells (r + 1) n))

-- A write to a cell outside the window.
window-set :
    (cells : List Notification) (x : Notification) (r n i : ℕ)
    → n ≤ (i + 16 - r % 16) % 16
    → i < 16
    → window (set cells i x) r n ≡ window cells r n
window-set cells x r zero i h l = refl
window-set cells x r (suc n) i h l =
    ap₂ ◌∷◌ (get_or-set_ne cells i (r % 16) x blank (λ e. omega arith))
      (window-set cells x (r + 1) n i (omega arith) l)

-- A write behind the window extends it.
window_put :
    (cells : List Notification) (x : Notification) (r n i : ℕ)
    → length cells ≡ 16
    → n < 16
    → i ≡ (r + n) % 16
    → window (set cells i x) r (suc n) ≡ window cells r n ++ (x ∷ [])
window_put cells x r n i len h e =
    window_snoc (set cells i x) r n
    ∙ ap₂ (λ l y. l ++ (y ∷ [])) (window-set cells x r n i (omega arith) (omega arith))
        (rw (← e) (get_or-set_self cells i x blank (omega arith)))

put_ring-IsValid : (x : Notification) (q : Ring) → IsValid q → IsValid (put_ring x q)
put_ring-IsValid x q v =
    ground (arith, length-set q.cells (bit_and q.write_cnt (sub32 q.queue_size 1)) x)

pub get_ring-IsValid : (q : Ring) → IsValid q → IsValid (get_ring q).1
get_ring-IsValid q v = ground arith

-- The number of notifications in a ring.
abbrev pub filling : Ring → ℕ
filling q = sub32 q.write_cnt q.read_cnt

put_index :
    (q : Ring)
    → IsValid q
    → bit_and q.write_cnt (sub32 q.queue_size 1) ≡ (q.read_cnt + filling q) % 16
put_index q v = rw v.size (bit_and-pow 4 q.write_cnt ∙ omega arith)

put_room :
    (x : Notification) (q : Ring)
    → IsValid q
    → filling q < 16
    → put_ring x q ≡ record q {
      cells = set q.cells ((q.read_cnt + filling q) % 16) x;
      write_cnt = inc32 q.write_cnt;
    }
put_room x q v h = ground (arith, put_index q v)

put_full : (x : Notification) (q : Ring) → IsValid q → ¬ (filling q < 16) → put_ring x q ≡ q
put_full x q v h = ground arith

put_ring_refines :
    (x : Notification) (q : Ring)
    → IsValid q
    → contents (put_ring x q) ≡ Fifo.put nq_num_elems x (contents q)
unfolding Fifo.put
put_ring_refines x q v = elim (dec_lt (filling q) 16) [
  | no p ↦
      ap contents (put_full x q v p)
      ∙ rw (length-window q.cells q.read_cnt (filling q), ltb_no (filling q) 16 p)
  | yes p ↦
      ap contents (put_room x q v p)
      ∙ (ap (window (set q.cells ((q.read_cnt + filling q) % 16) x) q.read_cnt) (more q v p)
          ∙ (window_put q.cells x q.read_cnt (filling q) _ v.room p refl
              ∙ rw (length-window q.cells q.read_cnt (filling q), lt→ltb (filling q) 16 p)))
]
  where
    more :
        (q : Ring)
        → IsValid q
        → filling q < 16
        → sub32 (inc32 q.write_cnt) q.read_cnt ≡ suc (filling q)
    more q v p = omega arith

    ltb_no : (a b : ℕ) → ¬ (a < b) → ltb a b ≡ false
    ltb_no a b h = ground arith

get_empty : (q : Ring) → filling q ≡ 0 → get_ring q ≡ (none, q)
get_empty q e = ground arith

get_some :
    (q : Ring) (n : ℕ)
    → IsValid q
    → filling q ≡ suc n
    → get_ring q
      ≡ (some (get_or q.cells (q.read_cnt % 16) blank), record q { read_cnt = inc32 q.read_cnt })
get_some q n v e =
    let m : bit_and q.read_cnt (sub32 q.queue_size 1) ≡ q.read_cnt % 16 =
      rw v.size (bit_and-pow 4 q.read_cnt) in
    ground arith

pub get_ring_at :
    (q : Ring) (n : ℕ)
    → IsValid q
    → filling q ≡ n
    → ((get_ring q).0, contents (get_ring q).1) ≡ Fifo.take_first (window q.cells q.read_cnt n)
unfolding Fifo.take_first
get_ring_at q zero v e =
    ap (λ (r : Option Notification × Ring). (r.0, contents r.1)) (get_empty q e)
    ∙ ap (λ k. (none, window q.cells q.read_cnt k)) e
get_ring_at q (suc n) v e =
    let less : sub32 q.write_cnt (inc32 q.read_cnt) ≡ n = omega arith in
    ap (λ (r : Option Notification × Ring). (r.0, contents r.1)) (get_some q n v e)
    ∙ ap (λ l. (some (get_or q.cells (q.read_cnt % 16) blank), l))
        (ap (window q.cells (inc32 q.read_cnt)) less
          ∙ window_cong q.cells (inc32 q.read_cnt) (q.read_cnt + 1) n (omega arith))

-- Over valid queues of 16 cells, `putNotification` appends to the outgoing queue or drops what
-- finds it full, and `getNotification` takes the oldest notification off the incoming queue or
-- answers NULL when it is empty, whatever the counters and where ever they wrap; both keep the
-- queues valid.
pub queues_refine :
    (x : Notification) (q : Queues)
    → IsValid q.in_ring
    → IsValid q.out_ring
    → (contents (put_notification x q).out_ring ≡ Fifo.put nq_num_elems x (contents q.out_ring))
      × (((get_notification q).0, contents (get_notification q).1.in_ring)
          ≡ Fifo.take_first (contents q.in_ring))
      × IsValid (put_notification x q).out_ring
      × IsValid (get_notification q).1.in_ring
unfolding put_notification get_notification
queues_refine x q i o = (
  put_ring_refines x q.out_ring o,
  get_ring_at q.in_ring (filling q.in_ring) i refl,
  put_ring-IsValid x q.out_ring o,
  get_ring-IsValid q.in_ring i,
)
