-- ===== src/Vmr/Devices.antt =====
-- The devices of the system: `load_devices`, `find_device`, `set_term_opt` and `set_term_speed` of
-- Tools/linux/vol180/vmr.c. A device control block (DCB) has a list of units (UCB).
use rsx.Base.{
  Bool, List, Option, bit_or, clear_bit, false, has_bit, if◌then◌else◌, none, not, some, suc, true,
  zero, ℕ, ◌%◌, ◌&&◌, ◌+◌, ◌==◌, ◌^◌, ◌||◌, ◌∷◌,
}
use rsx.Vmr.{Image, Symbols, addr16, sys_getb, sys_getw, sys_putb, sys_putw}
use rsx.Vmr.Pool.{pool_alloc, walk_fuel}

-- Offsets in the blocks (rsx180.h).
abbrev pub d_lnk : ℕ
d_lnk = 0

abbrev pub d_name : ℕ
d_name = 5

abbrev pub d_ucbl : ℕ
d_ucbl = 8

abbrev pub u_lnk : ℕ
u_lnk = 0

abbrev pub u_unit : ℕ
u_unit = 2

abbrev pub u_cw : ℕ
u_cw = 11

abbrev pub ux_bdr : ℕ
ux_bdr = 19

abbrev pub dcbsz : ℕ
dcbsz = 17

-- The loop of `load_devices` that sets the back pointers of the units.
unfoldable pub own_units : ℕ → (dcb ucb : ℕ) → Image → Option Image
own_units zero dcb ucb m = none
own_units (suc fuel) dcb ucb m =
    let m1 = sys_putw 0 (addr16 (ucb + 4)) dcb m in
    elim (ucb == 0) [
      | true ↦ some m
      | false ↦ own_units fuel dcb (sys_getw 0 (addr16 (ucb + u_lnk)) m1) m1
    ]

-- The stores into a new DCB, for the description at ddptr.
unfoldable pub fill_dcb : (phydev dcb ddptr : ℕ) → Image → Image
fill_dcb phydev dcb ddptr m =
    let m1 = sys_putw 0 (addr16 (phydev + d_lnk)) dcb m in
    let m2 = sys_putw 0 (addr16 (dcb + d_lnk)) 0 m1 in
    let m3 = sys_putb 0 (addr16 (dcb + 2)) 0 m2 in
    let m4 = sys_putw 0 (addr16 (dcb + 3)) 0 m3 in
    let m5 = sys_putw 0 (addr16 (dcb + d_name)) (sys_getw 0 ddptr m4) m4 in
    let m6 = sys_putb 0 (addr16 (dcb + 7)) (sys_getw 0 (addr16 (ddptr + 2)) m5) m5 in
    let m7 = sys_putw 0 (addr16 (dcb + d_ucbl)) (sys_getw 0 (addr16 (ddptr + 3)) m6) m6 in
    let m8 = sys_putb 0 (addr16 (dcb + 10)) 0 m7 in
    let m9 = sys_putw 0 (addr16 (dcb + 11)) ddptr m8 in
    let m10 = sys_putw 0 (addr16 (dcb + 13)) 0 m9 in
    sys_putw 0 (addr16 (dcb + 15)) (addr16 (ddptr + 5)) m10

-- The stores and the inner loop of a round.
abbrev pub add_device : (phydev dcb ddptr : ℕ) → Image → Option Image
add_device phydev dcb ddptr m =
    let w = fill_dcb phydev dcb ddptr m in
    own_units walk_fuel dcb (sys_getw 0 (addr16 (dcb + d_ucbl)) w) w

-- The outer loop of `load_devices`.
unfoldable pub load_loop : ℕ → Symbols → (phydev iddtbl ddptr : ℕ) → Image → Option Image
load_loop zero s phydev iddtbl ddptr m = none
load_loop (suc fuel) s phydev iddtbl ddptr m = elim (ddptr == 0) [
  | true ↦ some m
  | false ↦ elim (pool_alloc s dcbsz m) [
    | none ↦ none
    | some (dcb, w) ↦ elim (dcb == 0) [
      | true ↦ some w
      | false ↦ elim (add_device phydev dcb ddptr w) [
        | none ↦ none
        | some v ↦ let next = addr16 (iddtbl + 2) in load_loop fuel s dcb next (sys_getw 0 next v) v
      ]
    ]
  ]
]

-- `load_devices`
unfoldable pub load_devices : Symbols → Image → Option Image
load_devices s m =
    let loaded = load_loop walk_fuel s s.phydv s.iddtbl (sys_getw 0 s.iddtbl m) m in
    if sys_getw 0 s.phydv m == 0 then loaded else some m

-- The loop over the units of a device; zero if it has no such unit.
unfoldable pub find_unit : ℕ → (unit ucb : ℕ) → Image → Option ℕ
find_unit zero unit ucb m = none
find_unit (suc fuel) unit ucb m = elim (ucb == 0) [
  | true ↦ some 0
  | false ↦ elim (unit == sys_getb 0 (addr16 (ucb + u_unit)) m) [
    | true ↦ some ucb
    | false ↦ find_unit fuel unit (sys_getw 0 (addr16 (ucb + u_lnk)) m) m
  ]
]

-- The device has the two letters.
abbrev pub has_letters : (a b phydev : ℕ) → Image → Bool
has_letters a b phydev m =
    (sys_getb 0 (addr16 (phydev + d_name)) m == a)
    && (sys_getb 0 (addr16 (phydev + d_name + 1)) m == b)

-- The loop over the devices.
unfoldable pub device_walk : ℕ → (a b unit phydev : ℕ) → Image → Option ℕ
device_walk zero a b unit phydev m = none
device_walk (suc fuel) a b unit phydev m =
    let rest = device_walk fuel a b unit (sys_getw 0 (addr16 (phydev + d_lnk)) m) m in
    let units = find_unit walk_fuel unit (sys_getw 0 (addr16 (phydev + d_ucbl)) m) m in
    elim (phydev == 0) [
      | true ↦ some 0
      | false ↦ elim (has_letters a b phydev m) [
        | false ↦ rest
        | true ↦ elim units [
          | none ↦ none
          | some ucb ↦ elim (ucb == 0) [ true ↦ rest | false ↦ some ucb ]
        ]
      ]
    ]

-- `find_device`; `atoi` is of the C library, and the unit a byte.
unfoldable pub find_device : (List ℕ → ℕ) → Symbols → List ℕ → Image → Option ℕ
find_device atoi s (a ∷ b ∷ c ∷ cs) m =
    let unit = if c == 58 then 0 else atoi (c ∷ cs) % 256 in
    device_walk walk_fuel a b unit (sys_getw 0 s.phydv m) m
find_device atoi s _ m = some 0

-- The unit is a terminal.
abbrev pub is_tty : ℕ → Image → Bool
is_tty ucb m = has_bit (sys_getb 0 (addr16 (ucb + u_cw)) m) 2

-- What `set_term_opt` does with the unit found.
unfoldable pub change_opt : (ucb bitno : ℕ) → Bool → Image → Image
change_opt ucb bitno pol m =
    let field = addr16 (ucb + u_cw + 1) in
    let tc = sys_getb 0 field m in
    let mask = 2 ^ bitno in
    if (ucb == 0) || not (is_tty ucb m)
    then m
    else sys_putb 0 field (if pol then bit_or tc mask else clear_bit tc mask) m

-- `set_term_opt`
unfoldable pub set_term_opt :
    (List ℕ → ℕ) → Symbols → List ℕ → (bitno : ℕ) → (pol : Bool) → Image → Option Image
set_term_opt atoi s name bitno pol m = elim (find_device atoi s name m) [
  | none ↦ none
  | some ucb ↦ some (change_opt ucb bitno pol m)
]

-- What `set_term_speed` does with the unit found.
unfoldable pub change_speed : (ucb speed : ℕ) → Image → Image
change_speed ucb speed m =
    if (ucb == 0) || not (is_tty ucb m) then m else sys_putb 0 (addr16 (ucb + ux_bdr)) speed m

-- `set_term_speed`
unfoldable pub set_term_speed : (List ℕ → ℕ) → Symbols → List ℕ → (speed : ℕ) → Image → Option Image
set_term_speed atoi s name speed m = elim (find_device atoi s name m) [
  | none ↦ none
  | some ucb ↦ some (change_speed ucb speed m)
]
