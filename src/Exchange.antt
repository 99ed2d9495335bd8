-- ===== src/Exchange.antt =====
-- js/src/Exchange/Exchange.ts: a buffer that holds what one side is ahead of the other by. The
-- factory is a parameter that draws a new item from a state of its own.
pub mod Fifo
pub mod Contents
pub mod Promises
mod Tests
use interop.Base.{Bool, true, false, not, List, [], ◌∷◌, ◌++◌, same, if◌then◌else◌}

pub record Exchange (T S : Type 0) : Type 0 where
  pub buffer : List T
  pub side : Bool
  pub source : S

module _ {T S : Type 0} (factory : S → T × S) where
  unfoldable pub new_exchange : S → Exchange T S
  new_exchange s = record { buffer = []; side = false; source = s }

  -- the lines after the early return of `set`
  abbrev pub produce : Bool → Exchange T S → T × Exchange T S
  produce from_side x =
      let (n, s) = factory x.source in
      (n, record { buffer = x.buffer ++ n ∷ []; side = not from_side; source = s })

  unfoldable pub set : Bool → Exchange T S → T × Exchange T S
  set from_side x = elim x.buffer [
    | [] ↦ produce from_side x
    | n ∷ rest ↦
        if same x.side from_side then (n, record x { buffer = rest }) else produce from_side x
  ]

  unfoldable pub take : Exchange T S → T × Exchange T S
  unfolding set
  take = set true

  unfoldable pub give : Exchange T S → T × Exchange T S
  unfolding set
  give = set false

module _ {T S : Type 0} where
  unfoldable pub get : Bool → Exchange T S → List T
  get from_side x = if same x.side from_side then [] else x.buffer

  unfoldable pub taken : Exchange T S → List T
  unfolding get
  taken = get true

  unfoldable pub given : Exchange T S → List T
  unfolding get
  given = get false
