-- ===== src/Provider/Machine.antt =====
-- The machine that a provider plugin runs on: the processes that it starts, the environment, the
-- clock, the files and the random source. All of it is a parameter; a read file is an error's text or
-- the file's.
use tundler.Base.{
  ℕ, ◌*◌, ◌⊎◌, Text, Bool, true, false, ◌&&◌, Option, none, some, List, [], ◌∷◌, text_eq,
}
use tundler.Exec.{run_cmd}

pub record Machine (W : Type 0) : Type 0 where
  pub run : Text → List Text → W → (List Text × Option Text) × W
  pub getenv : Text → Text
  pub clock : W → ℕ × W
  pub sleep : ℕ → W → W
  pub wait : ℕ → W → Bool × W
  pub read_file : Text → W → (Text ⊎ Text) × W
  pub mkdir_all : Text → W → Option Text × W
  pub write_file : Text → Text → W → Option Text × W
  pub remove : Text → W → W
  pub pick : ℕ → W → ℕ × W

abbrev pub is_none : {A : Type 0} → Option A → Bool
is_none none = true
is_none (some a) = false

abbrev pub milliseconds : ℕ → ℕ
milliseconds n = n * 1000000

abbrev pub seconds : ℕ → ℕ
seconds n = n * 1000000000

-- `shared.RunCmd`
abbrev pub command : {W : Type 0} → Machine W → Text → List Text → W → (Text × Option Text) × W
command m name args w = run_cmd m.run name args w

-- Whether a process is started with these arguments.
abbrev pub same_args : List Text → List Text → Bool
same_args [] [] = true
same_args [] (b ∷ bs) = false
same_args (a ∷ as_) [] = false
same_args (a ∷ as_) (b ∷ bs) = text_eq a b && same_args as_ bs
