-- ===== src/Vmr/Names.antt =====
-- Names in the tables of the system image (Tools/linux/vol180/rsx180.h).
use rsx.Base.{Bool, false, if◌then◌else◌, suc, true, zero, ℕ, ◌+◌, ◌==◌}
use rsx.Vmr.{Image, addr16, sys_getb, sys_putb}

-- `strncmp (a, b, n) == 0`, from character i on.
unfoldable pub same_name : ℕ → ℕ → (ℕ → ℕ) → (ℕ → ℕ) → Bool
same_name zero i a b = true
same_name (suc n) i a b =
    let rest = same_name n (i + 1) a b in
    if a i == b i then (if a i == 0 then true else rest) else false

-- The characters of a name field.
abbrev pub name_at : ℕ → Image → ℕ → ℕ
name_at field m i = sys_getb 0 (addr16 (field + i)) m

-- The loops that store n bytes from the field on, from the i-th.
unfoldable pub put_bytes : ℕ → ℕ → ℕ → (ℕ → ℕ) → Image → Image
put_bytes zero i field val m = m
put_bytes (suc n) i field val m =
    put_bytes n (i + 1) field val (sys_putb 0 (addr16 (field + i)) (val i) m)
