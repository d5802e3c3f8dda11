-- ===== src/Config/Update/Defaults.antt =====
-- `setDefaultLabels`: the labels that are set from the environment when nothing else sets them.
use bscp_go.Prelude.{
  ◌≡◌, sym, ◌∙◌, Bool, false, ◌||◌, Option, none, some, List, [], ◌∷◌, arith, if◌then◌else◌,
  bytes_eq, bytes_eq_sound, bytes_eq_refl, Text, codes, is_empty,
}
use bscp_go.Labels.{Map, lookup, put}
use bscp_go.Labels.Priority.{or_else, or_else-none, lookup-put}
use bscp_go.Config.Update.{Outside, getenv, set_default_label, set_default_labels}

abbrev pub is_among : Text → List Text → Bool
is_among j [] = false
is_among j (l ∷ ls) = bytes_eq j l || is_among j ls

or_else_if :
    (a v : Option Text) (b c : Bool)
    → or_else (or_else a (if b then v else none)) (if c then v else none)
      ≡ or_else a (if b || c then v else none)
or_else_if a v b c = ground arith

module _ (o : Outside) where
  -- The environment variable with the label's name, and else the client's address for `ip`.
  abbrev pub variable_or_ip : Text → Option Text
  variable_or_ip j =
      if is_empty (getenv j o.environ)
      then (if bytes_eq j (codes "ip") then some o.client_ip else none)
      else some (getenv j o.environ)

  lookup-set_default_label :
      (l j : Text) (m : Map Text)
      → lookup j (set_default_label o l m)
        ≡ or_else (lookup j m) (if bytes_eq j l then variable_or_ip j else none)
  unfolding set_default_label
  lookup-set_default_label l j m =
      let with_ip = if bytes_eq l (codes "ip") then put l o.client_ip m else m in
      ground (
        arith,
        lookup-put j l o.client_ip m,
        lookup-put j l (getenv l o.environ) m,
        lookup-put j l (getenv l o.environ) (put l o.client_ip m),
        bytes_eq_sound j l,
        bytes_eq_refl j,
      )

  pub lookup-set_default_labels :
      (ls : List Text) (j : Text) (m : Map Text)
      → lookup j (set_default_labels o ls m)
        ≡ or_else (lookup j m) (if is_among j ls then variable_or_ip j else none)
  unfolding set_default_labels
  lookup-set_default_labels [] j m = sym (or_else-none (lookup j m))
  lookup-set_default_labels (l ∷ ls) j m =
      lookup-set_default_labels ls j (set_default_label o l m)
      ∙ rw (lookup-set_default_label l j m)
          (or_else_if (lookup j m) (variable_or_ip j) (bytes_eq j l) (is_among j ls))
