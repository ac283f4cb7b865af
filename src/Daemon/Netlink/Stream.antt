-- ===== src/Daemon/Netlink/Stream.antt =====
-- The data of a message as a stream.
use android_hardware_samsung.Common.{
  ℕ, zero, suc, ◌+◌, ◌-◌, ◌≡◌, ◌≢◌, List, [], ◌∷◌, ◌++◌, take, drop, length, if◌then◌else◌, refl,
  ap, ◌∙◌, arith,
}
use android_hardware_samsung.Daemon.Netlink.{
  Connection, Outcome, read_bytes, timed_out, handle_message, is_empty, read_data,
}

-- Reads of the given lengths, one after the other: what they have brought, and what they leave.
abbrev pub gathered : Outcome → List ℕ → List ℕ
gathered (read_bytes bytes) rest = bytes ++ rest
gathered timed_out rest = rest

unfoldable pub read_all : List ℕ → Connection → List ℕ × Connection
read_all [] c = ([], c)
read_all (len ∷ lens) c =
    let (out, d) = read_data len c in let (rest, e) = read_all lens d in (gathered out rest, e)

-- The semaphore has a signal as long as there is something to read.
pub record IsSignalled (c : Connection) : Type 0 where
  pub signalled : c.signals ≡ (if is_empty c.content then 0 else 1)

take-drop : (n : ℕ) (bytes : List ℕ) → take n bytes ++ drop n bytes ≡ bytes
take-drop zero bytes = refl
take-drop (suc n) [] = refl
take-drop (suc n) (b ∷ bytes) = ap (λ l. b ∷ l) (take-drop n bytes)

handle_message-IsSignalled :
    (payload : List ℕ) (c : Connection)
    → IsSignalled c
    → c.content ≡ []
    → payload ≢ []
    → IsSignalled (handle_message payload c)
unfolding handle_message
handle_message-IsSignalled [] c i e n = absurd (n refl)
handle_message-IsSignalled (b ∷ payload) c i e n = record {
  signalled = ground (arith, i.signalled, ap is_empty e);
}

read_data-IsSignalled : (len : ℕ) (c : Connection) → IsSignalled c → IsSignalled (read_data len c).1
unfolding read_data
read_data-IsSignalled len c i = record { signalled = ground (arith, i.signalled) }

append_nil : (bytes : List ℕ) → bytes ++ [] ≡ bytes
append_nil [] = refl
append_nil (b ∷ bytes) = ap (λ l. b ∷ l) (append_nil bytes)

append_assoc : (xs ys zs : List ℕ) → (xs ++ ys) ++ zs ≡ xs ++ (ys ++ zs)
append_assoc [] ys zs = refl
append_assoc (x ∷ xs) ys zs = ap (λ l. x ∷ l) (append_assoc xs ys zs)

length-drop : (n : ℕ) (bytes : List ℕ) → length (drop n bytes) ≡ length bytes - n
length-drop zero bytes = omega arith
length-drop (suc n) [] = omega arith
length-drop (suc n) (b ∷ bytes) = omega (arith, length-drop n bytes)

read_data_lem :
    (len : ℕ) (c : Connection)
    → IsSignalled c
    → (gathered (read_data len c).0 (read_data len c).1.content ≡ c.content)
      × (length (read_data len c).1.content ≡ length c.content - len)
unfolding read_data
read_data_lem len c i =
    ground
      (arith, i.signalled, take-drop len c.content, append_nil c.content, length-drop len c.content)

abbrev pub total : List ℕ → ℕ
total [] = 0
total (len ∷ lens) = len + total lens

gathered_append :
    (out : Outcome) (rest bytes : List ℕ)
    → gathered out rest ++ bytes ≡ gathered out (rest ++ bytes)
gathered_append (read_bytes front) rest bytes = append_assoc front rest bytes
gathered_append timed_out rest bytes = refl

read_all_lem :
    (lens : List ℕ) (c : Connection)
    → IsSignalled c
    → ((read_all lens c).0 ++ (read_all lens c).1.content ≡ c.content)
      × (length (read_all lens c).1.content ≡ length c.content - total lens)
unfolding read_all
read_all_lem [] c i = (refl, omega arith)
read_all_lem (len ∷ lens) c i =
    let (out, d) = read_data len c in
    let (bytes, left) = read_data_lem len c i in
    let (rest, fewer) = read_all_lem lens d (read_data-IsSignalled len c i) in
    (
      gathered_append out (read_all lens d).0 (read_all lens d).1.content
          ∙ (ap (gathered out) rest ∙ bytes),
      omega (arith, fewer, left),
    )

-- Reads of any lengths of a message that has come to a connection with nothing left to read: what
-- they bring one after the other and then what they leave is the message, none of it lost, twice or
-- out of order, and they leave what their lengths in all fall short of.
pub stream_lem :
    (payload lens : List ℕ) (c : Connection)
    → IsSignalled c
    → c.content ≡ []
    → payload ≢ []
    → let (out, d) = read_all lens (handle_message payload c) in
      (out ++ d.content ≡ payload) × (length d.content ≡ length payload - total lens)
unfolding handle_message
stream_lem payload lens c i e n =
    read_all_lem lens (handle_message payload c) (handle_message-IsSignalled payload c i e n)
