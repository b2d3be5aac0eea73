-- ===== src/Natives/Declared.antt =====
-- The natives as src/include/goradio.inc declares them to the scripts: how many arguments each has, and
-- what it returns where it fails.
use goradio_samp.Base.{ℕ, List, [], ◌∷◌, Bytes, codes}
use goradio_samp.Base.Int.{ℤ, pos, negsuc}

abbrev pub declared : List (Bytes × ℕ × ℤ)
declared =
    (codes "GoRadio_SetServer", 2, pos 0)
    ∷ (codes "GoRadio_IsReady", 0, pos 0)
    ∷ (codes "GoRadio_ReloadConfig", 0, pos 0)
    ∷ (codes "GoRadio_GetServerVersion", 2, pos 0)
    ∷ (codes "GoRadio_CreateStation", 5, negsuc 0)
    ∷ (codes "GoRadio_DestroyStation", 1, pos 0)
    ∷ (codes "GoRadio_IsValidStation", 1, pos 0)
    ∷ (codes "GoRadio_GetStationBySlug", 1, negsuc 0)
    ∷ (codes "GoRadio_GetStationCount", 0, pos 0)
    ∷ (codes "GoRadio_GetStationAtIndex", 1, negsuc 0)
    ∷ (codes "GoRadio_SetStationMetadata", 3, pos 0)
    ∷ (codes "GoRadio_ClearStationMetadata", 1, pos 0)
    ∷ (codes "GoRadio_UpdateStation", 5, pos 0)
    ∷ (codes "GoRadio_GetStationSlug", 3, pos 0)
    ∷ (codes "GoRadio_GetStreamURL", 3, pos 0)
    ∷ (codes "GoRadio_IsStationRegistered", 1, pos 0)
    ∷ (codes "GoRadio_QueueTrack", 6, pos 0)
    ∷ (codes "GoRadio_Dequeue", 2, pos 0)
    ∷ (codes "GoRadio_ClearQueue", 2, pos 0)
    ∷ (codes "GoRadio_Skip", 1, pos 0)
    ∷ (codes "GoRadio_SkipTo", 2, pos 0)
    ∷ (codes "GoRadio_Pause", 1, pos 0)
    ∷ (codes "GoRadio_Resume", 1, pos 0)
    ∷ (codes "GoRadio_Seek", 2, pos 0)
    ∷ (codes "GoRadio_SeekBy", 2, pos 0)
    ∷ (codes "GoRadio_RefreshStatus", 1, pos 0)
    ∷ (codes "GoRadio_HasStatus", 1, pos 0)
    ∷ (codes "GoRadio_GetListenerCount", 1, pos 0)
    ∷ (codes "GoRadio_GetUptime", 1, pos 0)
    ∷ (codes "GoRadio_IsSilence", 1, pos 0)
    ∷ (codes "GoRadio_IsPaused", 1, pos 0)
    ∷ (codes "GoRadio_IsPlaying", 1, pos 0)
    ∷ (codes "GoRadio_GetQueueLength", 1, pos 0)
    ∷ (codes "GoRadio_GetCurrentTrackID", 3, pos 0)
    ∷ (codes "GoRadio_GetCurrentTrackTitle", 3, pos 0)
    ∷ (codes "GoRadio_GetCurrentTrackArtist", 3, pos 0)
    ∷ (codes "GoRadio_GetCurrentTrackLocation", 3, pos 0)
    ∷ (codes "GoRadio_GetCurrentTrackCoverArt", 3, pos 0)
    ∷ (codes "GoRadio_GetCurrentTrackDuration", 1, pos 0)
    ∷ (codes "GoRadio_GetCurrentTrackElapsed", 1, pos 0)
    ∷ (codes "GoRadio_GetQueueItemCount", 1, pos 0)
    ∷ (codes "GoRadio_GetQueueItemID", 4, pos 0)
    ∷ (codes "GoRadio_GetQueueItemTitle", 4, pos 0)
    ∷ (codes "GoRadio_GetQueueItemArtist", 4, pos 0)
    ∷ (codes "GoRadio_GetQueueItemLocation", 4, pos 0)
    ∷ (codes "GoRadio_GetQueueItemDuration", 2, pos 0)
    ∷ (codes "GoRadio_GetHistoryCount", 1, pos 0)
    ∷ (codes "GoRadio_GetHistoryTitle", 4, pos 0)
    ∷ (codes "GoRadio_GetHistoryArtist", 4, pos 0)
    ∷ (codes "GoRadio_GetHistoryReason", 4, pos 0)
    ∷ (codes "GoRadio_RequestStationList", 0, pos 0)
    ∷ (codes "GoRadio_GetListedStationCount", 0, pos 0)
    ∷ (codes "GoRadio_GetListedStationSlug", 3, pos 0)
    ∷ (codes "GoRadio_GetListedStationName", 3, pos 0)
    ∷ (codes "GoRadio_GetListedStationLogo", 3, pos 0)
    ∷ (codes "GoRadio_GetListedListenerCount", 1, pos 0)
    ∷ []
