-- ===== src/Exec.antt =====
-- internal/shared/exec.go: the sink that captures the output of a child process, the wrapping of a
-- command in a network namespace, and `FirstIPv4`. The processes
-- themselves are a parameter. Version.antt is internal/shared/version.go.
pub mod Capture
pub mod Version
use tundler.Base.{
  ℕ, ◌+◌, ◌-◌, ◌*◌, Text, Bool, List, [], ◌∷◌, ◌++◌, codes, text_eq, fields, length, trim_space,
  Option, take, ltb, ◌==◌, if◌then◌else◌, zero, suc,
}

abbrev run_cmd_output_cap : ℕ
run_cmd_output_cap = 64 * 1024

-- `boundedWriter.Write`: what it reports, and the buffer after it. `remaining` stops at 0, where the
-- source tests that it is not positive.
unfoldable pub write : ℕ → Text → Text → ℕ × Text
write cap p buf =
    let remaining = cap - length buf in
    if remaining == 0
    then (length p, buf)
    else if ltb remaining (length p)
    then (length p, buf ++ take remaining p)
    else (length p, buf ++ p)

-- The writes of a process to one sink, in order.
unfoldable pub writes : ℕ → List Text → Text → Text
writes cap [] buf = buf
writes cap (p ∷ ps) buf = writes cap ps (write cap p buf).1

-- `RunCmd` and `RunCmdSilent`, which write no file: what the process wrote to the sink, without the
-- white space around it, and the error. `run` starts the process and waits for it.
unfoldable pub run_cmd :
    {W : Type 0}
    → (Text → List Text → W → (List Text × Option Text) × W)
    → Text
    → List Text
    → W
    → (Text × Option Text) × W
unfolding writes
run_cmd run name args w =
    let ((chunks, err), w') = run name args w in
    ((trim_space (writes run_cmd_output_cap chunks []), err), w')

-- `withNetNS`; `ns` is the value of TUNDLER_NETNS.
unfoldable with_net_ns : Text → Text → List Text → Text × List Text
with_net_ns ns name args =
    if text_eq ns []
    then (name, args)
    else (codes "ip", codes "netns" ∷ codes "exec" ∷ ns ∷ name ∷ args)

-- `strings.Count(tok, ".")`
abbrev dots : Text → ℕ
dots [] = 0
dots (c ∷ s) = if c == 46 then suc (dots s) else dots s

unfoldable pub first_dotted : List Text → Text
first_dotted [] = []
first_dotted (tok ∷ toks) = if dots tok == 3 then tok else first_dotted toks

-- `FirstIPv4`
unfoldable pub first_ipv4 : Text → Text
unfolding first_dotted
first_ipv4 s = first_dotted (fields s)
