-- ===== src/Lib.antt =====
-- camerahal: hardware support for the cameras, the video codecs and the secure world of OMAP4 devices.
-- The development models parts of its C code that hold logic of their own.
--
-- Parts and files.
--   Manifest models security/tf_daemon/lib_manifest2.c, the reader of manifests and configuration
--   files. Scanner is the form of its loops: the bytes from `pCurrent` on are a list, the body of a
--   loop is a step on its variables. Chars is static_checkCharacter and the comparison of section
--   names, Utf8 the check of the values, Context the state (LIB_MANIFEST2_CONTEXT), Loops and Reader
--   are static_libManifest2GetNextItemInternal, Items is libManifest2GetNextItem and
--   libManifest2CheckFormat. The modules below them hold the proofs, by what they prove.
--   Properties models security/tf_daemon/smc_properties_parser.c: Memory has the nodes, a pointer
--   being a number; Threaded is SMCPropListSortedAdd and SMCPropListFindElement with the functions
--   they call; Yacc is SMCPropYacc, which reads a configuration file with Manifest and puts what it
--   reads into such lists; Lookup and Check are the lookups of security/tf_daemon/smc_properties.c and
--   its check of the mandatory properties.
--   Delegation models security/tf_daemon/delegation_client.c: the operations on the partitions that the
--   daemon keeps for the secure world; Instructions is the loop of runSession over a batch.
--   OmxCore models domx/omx_core/src/OMX_Core.c: Registry is OMX_BuildComponentTable and the queries
--   OMX_ComponentNameEnum, OMX_GetRolesOfComponent, OMX_GetComponentsOfRole; Handles is OMX_Init,
--   OMX_GetHandle, OMX_FreeHandle, OMX_Deinit; Tunnel is OMX_SetupTunnel.
--   Hwc models hwc/hwc.c, the composer that puts the layers of the screen on the overlays of the display
--   controller. Hwc has the device and the layers, Layers what is asked of a layer and the
--   configuration of its overlay, Decide the counts, the shares of the two displays and whether the
--   GPU is needed, Setup the loop of omap4_hwc_prepare over the layers, Prepare the rest of it with
--   cloning, Posts is omap4_hwc_set and the events.
--   HeapTracker models heaptracker.c, the wrapper of malloc and free: the chains of blocks; Calls has
--   the wrapped functions, Ledger what they promise, as two lists without pointers.
--   Pipes models domx/mm_osal/src/timm_osal_pipes.c, the message pipes that the OpenMAX proxies use.
--   Events models domx/mm_osal/src/timm_osal_events.c, flags that threads set and wait for.
--   Status has the S_RESULT codes, Common the shared names and lemmas.
--
-- State and errors. Each function takes the state and gives the new one with its result. S_RESULT
-- functions give an Outcome, which is `running` when the fuel of a loop is used up.
--
-- Fuel. The reader's only loop that does not consume a byte in each round is the one behind a
-- section header; fuel bounds it, the rounds of the search for duplicates, of SMCPropYacc and of the
-- check of the format. A fuel above the length of the content is enough for the reader and the
-- rounds, since every item takes at least a byte, unless a section header does not end its line. The
-- searches in the property lists take fuel above the height of the tree. The loops of the heap
-- tracker take a round for each block of a list. A thread that waits for events goes down the list
-- of its waits, and is still waiting when that ends. A batch of the delegation client takes fuel
-- above its bytes. All other loops go down a list or an array.
--
-- Numbers are natural numbers. The bytes of a manifest are below 256 where a theorem says so. The
-- counters of a pipe and of the heap tracker wrap around at 2 ^ 32, as the words of the composer do;
-- `count` of the core is not bounded.
--
-- What the code calls is a parameter: the dynamic linker, the heap and the components of the core by
-- their answers, the pipes of the system by what they take and give; the driver of the composer, its
-- modes and the floating-point transformation of the external display; the heap of the tracker by
-- its answers, and what the program writes into blocks; the files of the daemon; the results of
-- pthread, and what other threads do while one waits. The calls of the core are taken one at a time,
-- as its mutexes order them. The table is that of the STATIC_TABLE build, and the secure mode is
-- checked, as domx/omx_core/Android.mk has it.
--
-- Not modelled: the log messages; the C++ code of the camera and the Java applications; the parts of
-- the C code that mostly call a driver or pthread; the remote calls of domx and the client API of
-- the secure world.
pub mod Common
pub mod Delegation
pub mod Events
pub mod HeapTracker
pub mod Hwc
pub mod Manifest
pub mod OmxCore
pub mod Pipes
pub mod Properties
pub mod Status
