-- ===== src/RocMonitor/Notify.antt =====
-- `notify` of roc-temperature-monitor/roc_temperature_monitor.py: alerts in messages of at most 1000
-- characters, each to the recipients that have not had them. The lengths of the texts are arguments:
-- Python formats them. A recipient is known by its hash.
use lvhvbox.Prelude.{
  is_empty, ℕ, ◌+◌, Bool, false, not, ◌&&◌, List, [], ◌∷◌, ◌++◌, Option, none, some, if◌then◌else◌,
  ◌==◌, ltb, length, any, select, find, store,
}
use lvhvbox.RocMonitor.{Key, same_key}

abbrev pub sum_size : (Key → ℕ) → List Key → ℕ
sum_size size [] = 0
sum_size size (k ∷ ks) = size k + sum_size size ks

-- The characters of a message: the joined lines, a line break and the action.
abbrev pub message_size : (Key → ℕ) → ℕ → List Key → ℕ
message_size size action [] = action + 1
message_size size action (k ∷ ks) = size k + (sum_size size ks + length ks) + 1 + action

-- `len('\n'.join([*batch.values(), reason])) + len(action) + 2 > 1000`
abbrev pub overflows : (Key → ℕ) → ℕ → List Key → Key → Bool
overflows size action batch k =
    not (is_empty batch) && ltb 1000 (sum_size size batch + size k + length batch + action + 2)

-- The loop over the pending alerts, and the batch that it ends with.
unfoldable pub split_batches : (Key → ℕ) → ℕ → List Key → List Key → List (List Key)
split_batches size action batch [] = if is_empty batch then [] else batch ∷ []
split_batches size action batch (k ∷ ks) =
    let full = overflows size action batch k in
    (if full then batch ∷ [] else [])
    ++ split_batches size action (if full then k ∷ [] else batch ++ k ∷ []) ks

unfoldable pub batches : (Key → ℕ) → ℕ → List Key → List (List Key)
unfolding split_batches
batches size action pending = split_batches size action [] pending

abbrev recipients : Option (List ℕ) → List ℕ
recipients none = []
recipients (some ids) = ids

-- The alerts that a recipient has not had.
unfoldable pub pending_for : ℕ → List (Key × List ℕ) → List Key → List Key
pending_for rid delivered keys =
    select (λ k. not (any (λ r. r == rid) (recipients (find same_key k delivered)))) keys

-- `monitor.delivered.setdefault(key, []).append(rid)` for each alert of a message.
unfoldable pub mark : ℕ → List Key → List (Key × List ℕ) → List (Key × List ℕ)
mark rid [] delivered = delivered
mark rid (k ∷ ks) delivered =
    mark rid ks (store same_key k (recipients (find same_key k delivered) ++ rid ∷ []) delivered)

-- A message to a recipient, and whether its delivery succeeded.
pub record Message : Type 0 where
  pub recipient : ℕ
  pub alerts : List Key
  pub succeeded : Bool

-- The outcome of the recipient's next messages, in order; none left is a failure.
abbrev next_outcome : List Bool → Bool
next_outcome [] = false
next_outcome (b ∷ bs) = b

abbrev later_outcomes : List Bool → List Bool
later_outcomes [] = []
later_outcomes (b ∷ bs) = bs

unfoldable pub send_all :
    ℕ → List Bool → List (List Key) → List (Key × List ℕ) → List Message × List (Key × List ℕ)
send_all user outcomes [] delivered = ([], delivered)
send_all user outcomes (batch ∷ rest) delivered =
    let sent = next_outcome outcomes in
    let (messages, final) =
      send_all user (later_outcomes outcomes) rest
        (if sent then mark user batch delivered else delivered) in
    (record { recipient = user; alerts = batch; succeeded = sent } ∷ messages, final)

-- `notify` to the recipients, by their hashes, with the outcomes of each one's messages.
unfoldable pub notify :
    (Key → ℕ)
    → ℕ
    → List Key
    → (ℕ → List Bool)
    → List ℕ
    → List (Key × List ℕ)
    → List Message × List (Key × List ℕ)
unfolding pending_for send_all
notify size action keys outcomes [] delivered = ([], delivered)
notify size action keys outcomes (user ∷ users) delivered =
    let pending = pending_for user delivered keys in
    let (messages, kept) = send_all user (outcomes user) (batches size action pending) delivered in
    let (more, final) = notify size action keys outcomes users kept in (messages ++ more, final)
