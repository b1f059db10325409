-- ===== src/Lib.antt =====
-- contain: a verification library for the build of contain, from a config to an index in a registry,
-- for the parts that move images between registries, and for the purge of its cache.
--
-- The program. `contain` appends layers to base images without a container runtime. Its package
-- pkg/ocipush moves images with their digests preserved: Push uploads an OCI layout, Mirror copies
-- from one registry to another, and the proxy stands in front of a registry for clients that cannot
-- use its direct-to-storage extension. All three send through one registry client, whose
-- `pushBlobFile` asks whether the registry has the blob, tries the extension, and falls back to the
-- standard upload with retries. Mirror and the proxy stage blobs in temporary files and compare
-- digests.
--
-- The build starts in pkg/contain. `RunAppend` selects the children of the base index that the
-- config asks for (pkg/multiarch), checks the config (pkg/schema) and builds the layers for each
-- platform from directories and files (pkg/layers, pkg/localdir). Then it appends them to each
-- child and pushes the result (pkg/appender), one at a time under the push lock (pkg/pushlock) if
-- asked to, puts the new index, and returns what it pushed (pkg/pushed).
--
-- Files and sources.
--   Base           tests, lists, texts and results over native numbers; `Base.Traced` has methods
--                  that fail and that leave a history of what was done outside.
--   Ocipush.World  what all of pkg/ocipush runs against: `Env` is the registries, the clock, the
--                  context, the temporary files, SHA-256, JSON and URLs, each an arbitrary function
--                  of everything that has happened; `Sys` is the history of exchanges, the files,
--                  the authenticated clients, and the state of the discovery; a method is a
--                  function from `Sys` to a result and a `Sys`.
--   Ocipush.Errors   pkg/ocipush/client.go: statusErr, retryable, statusError.
--   Ocipush.Digest   pkg/ocipush/ocipush.go: digestRe, blobs, mediaTypeOr.
--   Ocipush.Staging  pkg/ocipush/staging.go.
--   Ocipush.Client   pkg/ocipush/client.go: do, blobExists, putBlobOnce, pushBlobStandard,
--                    putManifest.
--   Ocipush.Direct   pkg/ocipush/directpush.go, and pushBlobFile of client.go.
--   Ocipush.Push     pkg/ocipush/ocipush.go: Push and the pusher's methods.
--   Ocipush.Mirror   pkg/ocipush/mirror.go.
--   Ocipush.Routes   pkg/ocipush/proxy.go: the grammars and the routing of ServeHTTP.
--   Ocipush.Proxy    pkg/ocipush/proxy.go: the handlers and their upload sessions.
--   Ocipush.Trace    what an exchange shows about a registry, the orders that uploads obey, and rules
--                    for runs of methods (`Run`) with their instances for each method.
--   Cache.Purge      pkg/cache/purge.go.
--   Schema.Config    pkg/schema/v1/config.go: what a build reads of the config.
--   Schema.LocalFile pkg/schema/v1/localfile.go and pkg/platform/platform.go.
--   Multiarch.Match  pkg/multiarch/match.go.
--   Multiarch.Index  pkg/multiarch/index.go and taggableindex.go.
--   Build            pkg/contain/libcontain.go and output.go: `run_append` is RunAppend, `prepare` all
--                    that it does before it sends anything; `World` is what it runs against.
--   Layers           pkg/layers/layers.go and pkg/localdir/size.go.
--   Localdir         pkg/localdir/localdir.go and singlefile.go: FromFilesystemWithMetadata.
--   Localdir.Filemap pkg/localdir/filemap_chmod.go: LayerFromFiles.
--   Appender         pkg/appender/appender_remote.go and appender_delta.go: Append.
--   Appender.Env     pkg/appender/env.go.
--   Annotate         pkg/annotate/annotate_baseref.go: NewBaseImageAnnotations.
--   Images           the operations on images that Append calls, and the `Action`s of a build.
--   Pushed           pkg/pushed: artifacts, the build output, platforms.
--   Pushlock         pkg/pushlock: the calls of Acquire, interleaved, as a step relation.
--   Sync             pkg/run: the copy of a layer into a running pod.
--   Sbom             pkg/sbom/wrap_spdx.go: the ensure functions on JSON values; `Sbom.Wrap` is
--                    WrapSPDX.
--   Tests            two small registries, and the theorems about pkg/ocipush, pkg/cache and the checks
--                    of the config at concrete inputs.
--   BuildTests       a small world for a build, and the theorems about builds at concrete inputs.
--   PartTests        the theorems about the parts of a build at concrete inputs.
--   SyncTests        a small cluster, and the theorems about the sync at concrete inputs.
--   SbomTests        a small SPDX document, and the theorems about its wrapping.
--
-- Fuel. The walks of Push and Mirror recurse over manifests that refer to each other by digest. The
-- model gives them a depth. A rank of digests that falls from each document to its children
-- (`Acyclic`) bounds the nesting; it is asked for only of what the walk can meet: for Push the
-- contents of files, for Mirror what the source answers requests for manifests with. A depth above
-- the rank of the root suffices. All else recurs on lists or on the number of retries that the
-- source fixes: 2 for a standard upload, 1 for a session of the extension. `PodWait` calls itself
-- for the next attempt: one call more than the config allows attempts is enough.
--
-- Simplifications. Sizes and times are natural numbers: a negative size in a document is not
-- modelled. Parts of a direct upload run one after the other, in an order that the world chooses;
-- after a failed part the others may still be sent. The length of a request is given where the code
-- sets it; elsewhere net/http does. Texts are compared as ASCII by TrimSpace and EqualFold. Error
-- messages keep the operation only. The proxy handles one request at a time, and a request that
-- names an upload id is handled with the session that it finds. The fields of a platform beyond its
-- operating system, architecture and variant are one text; `v1.Platform.Equals` is a parameter.
--
-- A build runs against go-containerregistry, which is a parameter (`Images`, `Indexes`) with no
-- hypotheses: it makes images of any type, and a push is one answer of the registry that depends on
-- all that was done before. So are the file system (`FileSystem`), the writing of archives (`Tar`),
-- the parsers of references, platforms, sizes and ignore patterns, the order in which Go walks a
-- map (`range`, the same for each walk of the same map), encoding/json of artifacts, and the
-- writing of an output, which is one answer. Log lines and progress reports are left out; integers
-- do not overflow; a descriptor whose digest is pending has the size 0 where the source has -1,
-- which nothing reads. A lock taken with flock(2) is free after `LOCK_UN`, after the close of its
-- file and after the death of its process; `Flock` fails while another call has it, and may fail at
-- any time.
--
-- Not modelled: environment variables and the working directory of the process, ignore files,
-- templates, the config of registries, the cache of blobs on disk (pkg/cache/cache.go wraps the one
-- of go-containerregistry), NewBaseref and the taggable child, which a build does not use, the command
-- line and the release scripts.
pub mod Base
pub mod Ocipush
pub mod Cache
pub mod Schema
pub mod Multiarch
pub mod Pushlock
pub mod Localdir
pub mod Layers
pub mod Images
pub mod Appender
pub mod Pushed
pub mod Annotate
pub mod Build
pub mod Sync
pub mod Sbom
pub mod Tests
pub mod BuildTests
pub mod PartTests
pub mod SyncTests
pub mod SbomTests
