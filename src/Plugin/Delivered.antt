-- ===== src/Plugin/Delivered.antt =====
-- The callbacks of a tick and the list of the scripts: src/natives.cpp and src/amxutil.cpp.
use goradio_samp.Base.{◌≡◌, refl, List, [], ◌∷◌}
use goradio_samp.Manager.State.{PawnEvent, tick}
use goradio_samp.Amx.Exports.{Exports, World}
use goradio_samp.Amx.Callback.{invoke}
use goradio_samp.Natives.Args.{with_manager}
use goradio_samp.Natives.Events.{dispatch_each, dispatch_pending_events, callback_for}

module _ (E : Exports) where
  dispatch_each-scripts :
      (events : List PawnEvent) (w : World E) → (dispatch_each E events w).scripts ≡ w.scripts
  unfolding dispatch_each invoke
  dispatch_each-scripts [] w = refl
  dispatch_each-scripts (ev ∷ events) w =
      dispatch_each-scripts events (invoke E (callback_for ev.kind ev) w)

  pub dispatch_pending_events-scripts :
      (w : World E) → (dispatch_pending_events E w).scripts ≡ w.scripts
  unfolding dispatch_pending_events tick
  dispatch_pending_events-scripts w =
      dispatch_each-scripts w.session.manager.dispatch
        (with_manager E w ((tick w.session.manager []).0))
