-- ===== src/Telnet.antt =====
-- Tools/linux/vtcp/telnet.c: the filter that takes the Telnet protocol out of what a client sends.
-- A `char` is its byte: the negative constants of the source are those of a signed `char`.
pub mod Items
use rsx.Base.{Bool, List, [], false, if◌then◌else◌, not, true, ℕ, ◌&&◌, ◌==◌, ◌∷◌}

abbrev pub tn_iac : ℕ
tn_iac = 255

abbrev pub tn_will : ℕ
tn_will = 251

abbrev pub tn_wont : ℕ
tn_wont = 252

abbrev pub tn_brk : ℕ
tn_brk = 243

abbrev pub tn_bin : ℕ
tn_bin = 0

abbrev pub tn_cr : ℕ
tn_cr = 13

-- `TNS_NORM`, ...: the state of the line.
pub data LineState : Type 0 where
  norm : LineState
  iac : LineState
  will : LineState
  wont : LineState
  skip : LineState

-- The two static variables of `telnet_filter`.
pub record Telnet : Type 0 where
  pub tsta : LineState
  pub dstb : Bool

-- The state behind `TNS_IAC`.
pub after_iac : ℕ → Bool → LineState
after_iac c dstb =
    if (c == tn_iac) && not dstb
    then norm
    else if c == tn_brk
    then norm
    else if c == tn_will
    then will
    else if c == tn_wont
    then wont
    else skip

-- `telnet_filter`: whether the character is to be output.
pub telnet_filter : ℕ → Telnet → Bool × Telnet
unfolding after_iac
telnet_filter c t = elim t.tsta [
  | norm ↦
      if c == tn_iac
      then (false, record t { tsta = iac })
      else if (c == tn_cr) && t.dstb
      then (false, record t { tsta = skip })
      else (true, t)
  | iac ↦ (false, record t { tsta = after_iac c t.dstb })
  | will ↦ (false, record { tsta = norm; dstb = if c == tn_bin then false else t.dstb })
  | wont ↦ (false, record { tsta = norm; dstb = if c == tn_bin then true else t.dstb })
  | skip ↦ (false, record t { tsta = norm })
]

-- A client's characters in their order: the ones that are output, and the variables behind.
pub filter_all : List ℕ → Telnet → List ℕ × Telnet
unfolding telnet_filter
filter_all [] t = ([], t)
filter_all (c ∷ cs) t =
    let (r, u) = telnet_filter c t in
    let (out, w) = filter_all cs u in (if r then c ∷ out else out, w)
