-- ===== src/Io/Console.antt =====
-- kernel/src/io/console.rs: the keyboard's lines. The queue of scan codes, which the keyboard
-- interrupt fills, and the bytes sent to the serial line stand beside the state of `Console`.
use alaphi_os.Base.{
  ℕ, ◌+◌, Option, none, some, [], ◌∷◌, ◌++◌, ltb, ◌==◌, if◌then◌else◌, get_elem?, get_or, set, take,
  drop, replicate,
}
use alaphi_os.Base.Bytes.{Bytes}

abbrev pub scancode_to_ascii : Bytes
scancode_to_ascii =
    0 ∷ 0 ∷ b'1' ∷ b'2' ∷ b'3' ∷ b'4' ∷ b'5' ∷ b'6' ∷ b'7' ∷ b'8' ∷ b'9' ∷ b'0' ∷ b'-' ∷ b'=' ∷ 8
    ∷ 9 ∷ b'q' ∷ b'w' ∷ b'e' ∷ b'r' ∷ b't' ∷ b'y' ∷ b'u' ∷ b'i' ∷ b'o' ∷ b'p' ∷ b'[' ∷ b']' ∷ 10 ∷ 0
    ∷ b'a' ∷ b's' ∷ b'd' ∷ b'f' ∷ b'g' ∷ b'h' ∷ b'j' ∷ b'k' ∷ b'l' ∷ b';' ∷ 39 ∷ b'`' ∷ 0 ∷ 92
    ∷ b'z' ∷ b'x' ∷ b'c' ∷ b'v' ∷ b'b' ∷ b'n' ∷ b'm' ∷ b',' ∷ b'.' ∷ b'/' ∷ 0 ∷ 0 ∷ 0 ∷ b' ' ∷ []

abbrev pub line_max : ℕ
line_max = 256

abbrev pub newline : ℕ
newline = 10

pub record Console : Type 0 where
  pub line_buf : Bytes
  pub line_len : ℕ
  pub ready_buf : Bytes
  pub ready_len : ℕ
  pub ready_pos : ℕ

unfoldable pub new : Console
new = record {
  line_buf = replicate line_max 0;
  line_len = 0;
  ready_buf = replicate line_max 0;
  ready_len = 0;
  ready_pos = 0;
}

-- `.filter(|&c| c != 0)`
unfoldable pub nonzero : Option ℕ → Option ℕ
nonzero none = none
nonzero (some c) = if c == 0 then none else some c

-- A code of 0x80 or above is the release of a key.
unfoldable pub decode_scancode : ℕ → Option ℕ
decode_scancode code = if ltb code 128 then nonzero (get_elem? scancode_to_ascii code) else none

-- The console and the bytes echoed.
abbrev pub Drained : Type 0
Drained = Console × Bytes

unfoldable pub store : Console → ℕ → Drained
store c ch =
    if ltb c.line_len line_max
    then (record c { line_buf = set c.line_buf c.line_len ch; line_len = c.line_len + 1 }, ch ∷ [])
    else (c, [])

-- the copy of the line to `ready_buf`
unfoldable pub make_ready : Console → Console
make_ready c = record c {
  ready_buf = take c.line_len c.line_buf ++ drop c.line_len c.ready_buf;
  ready_len = c.line_len;
  ready_pos = 0;
  line_len = 0;
}

-- one round of the loop of `drain_scancodes`, on the code decoded
unfoldable pub accept : Console → Option ℕ → Drained
accept c none = (c, [])
accept c (some ch) =
    let (c', echo) = store c ch in if ch == newline then (make_ready c', echo) else (c', echo)

-- The loop empties the queue of scan codes.
unfoldable pub drain_scancodes : Console → Bytes → Drained
drain_scancodes c [] = (c, [])
drain_scancodes c (code ∷ codes) =
    let (c', echo) = accept c (decode_scancode code) in
    let (c'', echo') = drain_scancodes c' codes in (c'', echo ++ echo')

-- `if self.ready_pos < self.ready_len`
unfoldable pub next_ready : Console → Option ℕ × Console
next_ready c =
    if ltb c.ready_pos c.ready_len
    then (some (get_or c.ready_buf c.ready_pos 0), record c { ready_pos = c.ready_pos + 1 })
    else (none, c)

-- The byte, the console, the scan codes left and the echo.
unfoldable pub get : Console → Bytes → Option ℕ × Console × Bytes × Bytes
get c codes =
    if ltb c.ready_pos c.ready_len
    then (let (b, c') = next_ready c in (b, c', codes, []))
    else (let (c', echo) = drain_scancodes c codes in
        let (b, c'') = next_ready c' in (b, c'', [], echo))

-- `put` sends the byte to the serial line.
unfoldable pub put : Bytes → ℕ → Bytes
put serial byte = serial ++ byte ∷ []
