-- ===== src/Notify.antt =====
-- internal/util/notify/var.go: a variable whose readers get a channel that is closed when it changes. A channel is
-- its number in the order in which channels are made; closing a channel twice does not happen, as the
-- theorems show. Every method runs under the lock.
pub mod Wakes
mod Tests
use cdc_sink_redshift.Common.{
  ℕ, suc, Bool, true, false, ◌||◌, ◌==◌, Option, none, some, List, [], ◌∷◌, Outcome, done, failed,
}

-- `Var`, with the channels that were closed and the number of those that were made.
pub record Var (T : Type 0) : Type 0 where
  pub data_now : T
  pub updated : Option ℕ
  pub closed : List ℕ
  pub made : ℕ

-- `close`, of a channel that is not nil.
unfoldable pub close : Option ℕ → List ℕ → List ℕ
close none closed = closed
close (some ch) closed = ch ∷ closed

module _ {T : Type 0} where
  -- The zero value of `Var`, with the zero value of its type.
  unfoldable pub zero_var : T → Var T
  zero_var zero_value = record { data_now = zero_value; updated = none; closed = []; made = 0 }

  -- `Get`.
  unfoldable pub get_with : Option ℕ → Var T → Var T × T × ℕ
  get_with (some ch) v = (v, v.data_now, ch)
  get_with none v = (record v { updated = some v.made; made = suc v.made }, v.data_now, v.made)

  unfoldable pub get : Var T → Var T × T × ℕ
  get v = get_with v.updated v

  -- `notifyLocked`, and `Notify`.
  unfoldable pub notify : Var T → Var T
  notify v = record v {
    updated = some v.made;
    closed = close v.updated v.closed;
    made = suc v.made;
  }

  -- `Set`.
  unfoldable pub set_var : T → Var T → Var T
  set_var next v = notify (record v { data_now = next })

  -- `Update`: the variable, and the error of the callback.
  unfoldable pub update_with : {E : Type 0} → Outcome E T → Var T → Var T × Option E
  update_with (done next) v = (set_var next v, none)
  update_with (failed e) v = (v, some e)

  unfoldable pub update : {E : Type 0} → (T → Outcome E T) → Var T → Var T × Option E
  update fn v = update_with (fn v.data_now) v

  -- `Peek`: the channel, which can be nil, and what the callback returns.
  unfoldable pub peek_var : {E : Type 0} → (T → Option E) → Var T → Option ℕ × Option E
  peek_var fn v = (v.updated, fn v.data_now)

-- The calls that other goroutines make.
pub data Call (T E : Type 0) : Type 0 where
  got notified peeked : Call T E
  set_to : T → Call T E
  updated_by : (T → Outcome E T) → Call T E

module _ {T E : Type 0} where
  unfoldable pub call : Call T E → Var T → Var T
  call got v = (get v).0
  call notified v = notify v
  call peeked v = v
  call (set_to next) v = set_var next v
  call (updated_by fn) v = (update fn v).0

  unfoldable pub calls : List (Call T E) → Var T → Var T
  calls [] v = v
  calls (c ∷ cs) v = calls cs (call c v)
