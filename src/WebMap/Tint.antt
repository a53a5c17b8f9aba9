-- ===== src/WebMap/Tint.antt =====
-- The icons of the web map and its theme.
use ovlive_platform.Prelude.Dict
use ovlive_platform.Prelude.Dict.{lookup-erase, lookup-insert, lookup}
use ovlive_platform.Prelude.{
  ◌≡◌, refl, Bool, true, false, none, some, List, [], ◌∷◌, arith, if◌then◌else◌, Text, sym, ◌∙◌,
  subst, ◌⊎◌, inl, inr, Option, Option-cases,
}
use ovlive_platform.Types.{NormalizedUpdate, Vehicle, MoveDelta}
use ovlive_platform.Fleet.Defs.{selected_gone}
use ovlive_platform.WebMap.Defs.{
  reconcile_refs, on_update, move_ref, schedule_frame, marker_id, enter_ref, WebMap, leave_refs,
  change_theme, Marker, retint_markers, clear_refs, selected_icon, leave_ref, enter_refs, move_refs,
  marker_of, move_marker, retint,
}
use ovlive_platform.Fleet.Contents.{lookup-change, map_option}
use ovlive_platform.WebMap.Agreement.{lookup-map_values}

module _ {R : Type 0} where
  -- The icons of a marker are those of the tone.
  abbrev pub IsToned : Bool → Marker R → Type 0
  IsToned dark f =
      (f.icon ≡ marker_id f.owner f.line dark)
      × (f.icon_sel ≡ selected_icon (marker_id f.owner f.line dark))

  pub record IsTinted (w : WebMap R) : Type 0 where
    pub tint : (id : Text) (f : Marker R) → Dict.lookup id w.features ≡ some f → IsToned w.dark f

  retinted-IsToned :
      (dark : Bool) (f : Marker R) (o : Option (Marker R))
      → map_option (retint dark) o ≡ some f
      → IsToned dark f
  unfolding retint
  retinted-IsToned dark f none e = absurd (ground arith)
  retinted-IsToned dark f (some v) e =
      let q : retint dark v ≡ f = ground arith in subst (λ g. IsToned dark g) q (refl, refl)

  leave-IsTinted : (id : Text) (w : WebMap R) → IsTinted w → IsTinted (leave_ref id w)
  unfolding leave_ref
  leave-IsTinted id w h = record {
    tint = λ k f e. ground (arith, h.tint k f, lookup-erase id k w.features);
  }

  leaves-AreTinted : (ids : List Text) (w : WebMap R) → IsTinted w → IsTinted (leave_refs ids w)
  unfolding leave_refs
  leaves-AreTinted [] w h = h
  leaves-AreTinted (id ∷ ids) w h = leaves-AreTinted ids (leave_ref id w) (leave-IsTinted id w h)

  reconcile_same :
      (ids : List Text) (w : WebMap R)
      → ((reconcile_refs ids w).features ≡ w.features) × ((reconcile_refs ids w).dark ≡ w.dark)
  unfolding reconcile_refs
  reconcile_same [] w = (refl, refl)
  reconcile_same (id ∷ ids) w =
      let (ef, ed) = reconcile_same ids (elim (Dict.lookup id w.vehicles) [
        | none ↦ record w { events = selected_gone id ∷ w.events }
        | some _ ↦ w
      ]) in
      (ground (arith, ef), ground (arith, ed))

  clear-IsTinted : (b : Bool) (w : WebMap R) → IsTinted w → IsTinted (clear_refs b w)
  unfolding clear_refs Dict.lookup
  clear-IsTinted true w h = record { tint = λ k f e. absurd (ground arith) }
  clear-IsTinted false w h = h

  settle-IsTinted :
      (b : Bool) (w : WebMap R)
      → IsTinted w
      → IsTinted (schedule_frame (if b then reconcile_refs w.selected_ids w else w))
  unfolding schedule_frame
  settle-IsTinted true w h = record {
    tint = λ k f e. ground (arith, h.tint k f, reconcile_same w.selected_ids w);
  }
  settle-IsTinted false w h = record { tint = h.tint }

  module _ (zero_bearing : R) where
    moved-IsToned :
        (m : MoveDelta R) (v f : Marker R) (dark : Bool)
        → IsToned dark v
        → ((f ≡ move_marker zero_bearing m v) ⊎ (f ≡ v))
        → IsToned dark f
    unfolding move_marker
    moved-IsToned m v f dark h (inl e) = rw e h
    moved-IsToned m v f dark h (inr e) = rw e h

    move-IsTinted :
        (m : MoveDelta R) (w : WebMap R) → IsTinted w → IsTinted (move_ref zero_bearing m w)
    unfolding move_ref
    move-IsTinted m w h = record {
      tint = λ k f e. elim (Option-cases (Dict.lookup k w.features)) [
        | inl out ↦
            absurd
              (ground (arith, out, lookup-change m.id k (move_marker zero_bearing m) w.features))
        | inr (v, found) ↦
            moved-IsToned m v f w.dark (h.tint k v found)
              (ground (arith, found, lookup-change m.id k (move_marker zero_bearing m) w.features))
      ];
    }

    moves-AreTinted :
        (ms : List (MoveDelta R)) (w : WebMap R)
        → IsTinted w
        → IsTinted (move_refs zero_bearing ms w)
    unfolding move_refs
    moves-AreTinted [] w h = h
    moves-AreTinted (m ∷ ms) w h =
        moves-AreTinted ms (move_ref zero_bearing m w) (move-IsTinted m w h)

    module _ (to_upper : Text → Text) where
      enter-IsTinted :
          (v : Vehicle R) (w : WebMap R)
          → IsTinted w
          → IsTinted (enter_ref to_upper zero_bearing v w)
      unfolding enter_ref marker_of
      enter-IsTinted v w h = record {
        tint = λ k f e. ground (
          arith,
          h.tint k f,
          lookup-insert v.id k (marker_of to_upper zero_bearing w.dark v) w.features,
        );
      }

      enters-AreTinted :
          (vs : List (Vehicle R)) (w : WebMap R)
          → IsTinted w
          → IsTinted (enter_refs to_upper zero_bearing vs w)
      unfolding enter_refs
      enters-AreTinted [] w h = h
      enters-AreTinted (v ∷ vs) w h =
          enters-AreTinted vs (enter_ref to_upper zero_bearing v w) (enter-IsTinted v w h)

      -- If every marker has the icons of the theme, it has them after a frame; and after a change
      -- of the theme while the style is loaded, every marker has the icons of the new theme,
      -- whatever it had before.
      pub icons_follow_theme :
          (u : NormalizedUpdate R) (w v : WebMap R) (dark : Bool)
          → IsTinted w
          → IsTinted (on_update to_upper zero_bearing u w) × IsTinted (change_theme true dark v)
      unfolding on_update change_theme retint_markers
      icons_follow_theme u w v dark h = (
        settle-IsTinted u.is_snapshot _ (
            leaves-AreTinted u.left _ (
              moves-AreTinted u.moved _
                (enters-AreTinted u.entered _ (clear-IsTinted u.is_snapshot w h)))),
        record {
          tint = λ k f e.
              retinted-IsToned dark f (Dict.lookup k v.features)
                (sym (lookup-map_values (retint dark) k v.features) ∙ e);
        },
      )
