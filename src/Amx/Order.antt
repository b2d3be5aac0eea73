-- ===== src/Amx/Order.antt =====
-- The arguments that `AmxCallback::Invoke` pushes, and what the public finds behind the addresses among
-- them: src/amxutil.cpp.
use goradio_samp.Amx.Exports.{Exports}
use goradio_samp.Amx.Stacks.{Stacks}
